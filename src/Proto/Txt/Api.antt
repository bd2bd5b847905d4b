-- ===== src/Proto/Txt/Api.antt =====
-- include/mcache/proto/txt.h, `api`: the commands of the text protocol as the client runs them.
-- `name_injector` gives each its name.
use mcache_client.Prelude.{ℕ, [], Bytes, codes}
use mcache_client.Error.{Result, returns, ◌>>=◌}
use mcache_client.Proto.Command.{Command, behind}
use mcache_client.Proto.Options.{Options}
use mcache_client.Proto.Response.{SingleResponse, SingleRetrievalResponse}
use mcache_client.Proto.Zlib.{ZlibLibrary}
use mcache_client.Proto.Txt.Requests.{
  StorageCommand, storage_command, serialize_storage, CounterCommand, counter_command,
  serialize_counter, serialize_retrieve, serialize_delete, serialize_flush_all, line_end,
}
use mcache_client.Proto.Txt.Responses.{
  deserialize_retrieve, deserialize_storage, deserialize_counter, deserialize_delete,
  deserialize_flush_all,
}

-- A command with this name, once the constructor has returned.
unfoldable pub stored_by : Bytes → StorageCommand → Command SingleResponse
unfolding serialize_storage
stored_by name c = record {
  key = c.key;
  serialize = serialize_storage c name;
  header_delimiter = behind line_end;
  deserialize_header = λ header. returns (deserialize_storage header);
}

unfoldable pub counted_by : Bytes → CounterCommand → Command SingleResponse
unfolding serialize_counter
counted_by name c = record {
  key = c.key;
  serialize = serialize_counter c name;
  header_delimiter = behind line_end;
  deserialize_header = λ header. returns (deserialize_counter header);
}

module _ (zlib : ZlibLibrary) where
  unfoldable pub retrieved_by : Bytes → Bytes → Command SingleRetrievalResponse
  unfolding serialize_retrieve deserialize_retrieve
  retrieved_by name key = record {
    key = key;
    serialize = serialize_retrieve key name;
    header_delimiter = behind line_end;
    deserialize_header = λ header. returns (deserialize_retrieve zlib header);
  }

  unfoldable pub storing : Bytes → Bytes → Bytes → Options → Result (Command SingleResponse)
  unfolding storage_command stored_by
  storing name key input opts = do
    c ← storage_command zlib key input opts
    returns (stored_by name c)

  -- `get_t` and `gets_t`.
  unfoldable pub get_command : Bytes → Command SingleRetrievalResponse
  unfolding retrieved_by
  get_command = retrieved_by (codes "get")

  unfoldable pub gets_command : Bytes → Command SingleRetrievalResponse
  unfolding retrieved_by
  gets_command = retrieved_by (codes "gets")

  -- The storage commands.
  unfoldable pub set_command : Bytes → Bytes → Options → Result (Command SingleResponse)
  unfolding storing
  set_command = storing (codes "set")

  unfoldable pub add_command : Bytes → Bytes → Options → Result (Command SingleResponse)
  unfolding storing
  add_command = storing (codes "add")

  unfoldable pub replace_command : Bytes → Bytes → Options → Result (Command SingleResponse)
  unfolding storing
  replace_command = storing (codes "replace")

  unfoldable pub append_command : Bytes → Bytes → Options → Result (Command SingleResponse)
  unfolding storing
  append_command = storing (codes "append")

  unfoldable pub prepend_command : Bytes → Bytes → Options → Result (Command SingleResponse)
  unfolding storing
  prepend_command = storing (codes "prepend")

  unfoldable pub cas_command : Bytes → Bytes → Options → Result (Command SingleResponse)
  unfolding storing
  cas_command = storing (codes "cas")

-- The commands with a number. `touch` sends its expiration in the place of the amount.
unfoldable pub counting : Bytes → Bytes → ℕ → Options → Result (Command SingleResponse)
unfolding counter_command counted_by
counting name key value opts = do c ← counter_command key value opts; returns (counted_by name c)

unfoldable pub incr_command : Bytes → ℕ → Options → Result (Command SingleResponse)
unfolding counting
incr_command = counting (codes "incr")

unfoldable pub decr_command : Bytes → ℕ → Options → Result (Command SingleResponse)
unfolding counting
decr_command = counting (codes "decr")

unfoldable pub touch_command : Bytes → ℕ → Options → Result (Command SingleResponse)
unfolding counting
touch_command = counting (codes "touch")

-- `delete_t` and `flush_all_t`.
unfoldable pub delete_command : Bytes → Command SingleResponse
unfolding serialize_delete
delete_command key = record {
  key = key;
  serialize = serialize_delete key;
  header_delimiter = behind line_end;
  deserialize_header = λ header. returns (deserialize_delete header);
}

unfoldable pub flush_command : ℕ → Command SingleResponse
unfolding serialize_flush_all
flush_command expiration = record {
  key = [];
  serialize = returns (serialize_flush_all expiration);
  header_delimiter = behind line_end;
  deserialize_header = λ header. returns (deserialize_flush_all header);
}
