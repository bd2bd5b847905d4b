-- ===== src/Proto/Bin/Api.antt =====
-- include/mcache/proto/binary.h, `api`: the commands of the binary protocol as the client runs them.
-- `op_code_injector` gives each its operation code.
use mcache_client.Prelude.{ℕ, Bool, true, false, [], Bytes}
use mcache_client.Error.{Result, returns, ◌>>=◌}
use mcache_client.Proto.Command.{Command, after}
use mcache_client.Proto.Options.{Options}
use mcache_client.Proto.Response.{SingleBodyResponse, SingleRetrievalResponse}
use mcache_client.Proto.Zlib.{ZlibLibrary}
use mcache_client.Proto.Bin.Header.{header_size}
use mcache_client.Proto.Bin.Commands.{
  StorageCommand, storage_command, serialize_storage, key_command, serialize_key, serialize_delete,
  counter_command, serialize_counter, touch_command, serialize_touch, flush_all_command,
  serialize_flush_all, get_code, set_code, add_code, replace_code, increment_code, decrement_code,
  append_code, prepend_code, touch_code,
}
use mcache_client.Proto.Bin.Responses.{
  deserialize_retrieve, deserialize_storage, deserialize_delete, deserialize_flush_all,
  deserialize_counter, deserialize_touch,
}

-- A command with this code, once the constructor has returned.
unfoldable pub stored_by : ℕ → StorageCommand → Command SingleBodyResponse
unfolding serialize_storage
stored_by code c = record {
  key = c.key;
  serialize = serialize_storage c code;
  header_delimiter = after header_size;
  deserialize_header = deserialize_storage;
}

module _ (zlib : ZlibLibrary) where
  -- `get_t` and `gets_t`, which have the same code.
  unfoldable pub get_command : Bytes → Command SingleRetrievalResponse
  unfolding serialize_key deserialize_retrieve
  get_command key = record {
    key = key;
    serialize = serialize_key (key_command key) get_code;
    header_delimiter = after header_size;
    deserialize_header = deserialize_retrieve zlib;
  }

  unfoldable pub storing : Bool → ℕ → Bytes → Bytes → Options → Result (Command SingleBodyResponse)
  unfolding storage_command stored_by
  storing has_extras code key input opts = do
    c ← storage_command zlib has_extras key input opts
    returns (stored_by code c)

  -- `set_t`, and `cas_t`, which has the same code.
  unfoldable pub set_command : Bytes → Bytes → Options → Result (Command SingleBodyResponse)
  unfolding storing
  set_command = storing true set_code

  unfoldable pub add_command : Bytes → Bytes → Options → Result (Command SingleBodyResponse)
  unfolding storing
  add_command = storing true add_code

  unfoldable pub replace_command : Bytes → Bytes → Options → Result (Command SingleBodyResponse)
  unfolding storing
  replace_command = storing true replace_code

  unfoldable pub append_command : Bytes → Bytes → Options → Result (Command SingleBodyResponse)
  unfolding storing
  append_command = storing false append_code

  unfoldable pub prepend_command : Bytes → Bytes → Options → Result (Command SingleBodyResponse)
  unfolding storing
  prepend_command = storing false prepend_code

-- `incr_t` and `decr_t`.
unfoldable pub counter_by : ℕ → Bytes → ℕ → Options → Command SingleBodyResponse
counter_by code key value opts = record {
  key = key;
  serialize = serialize_counter (counter_command key value opts) code;
  header_delimiter = after header_size;
  deserialize_header = deserialize_counter;
}

unfoldable pub incr_command : Bytes → ℕ → Options → Command SingleBodyResponse
unfolding counter_by
incr_command = counter_by increment_code

unfoldable pub decr_command : Bytes → ℕ → Options → Command SingleBodyResponse
unfolding counter_by
decr_command = counter_by decrement_code

-- `touch_t`, `delete_t` and `flush_all_t`.
unfoldable pub touch_by_command : Bytes → ℕ → Command SingleBodyResponse
touch_by_command key expiration = record {
  key = key;
  serialize = serialize_touch (touch_command key expiration) touch_code;
  header_delimiter = after header_size;
  deserialize_header = deserialize_touch;
}

unfoldable pub delete_command : Bytes → Command SingleBodyResponse
delete_command key = record {
  key = key;
  serialize = serialize_delete (key_command key);
  header_delimiter = after header_size;
  deserialize_header = deserialize_delete;
}

unfoldable pub flush_command : ℕ → Command SingleBodyResponse
flush_command expiration = record {
  key = [];
  serialize = serialize_flush_all (flush_all_command expiration);
  header_delimiter = after header_size;
  deserialize_header = deserialize_flush_all;
}
