-- ===== src/Proto/Txt/Requests.antt =====
-- src/proto/txt.cc: the requests.
use mcache_client.Prelude.{ℕ, [], ◌∷◌, ◌++◌, ◌==◌, if◌then◌else◌, Bytes, codes, decimal, length}
use mcache_client.Error.{ErrorCode, mc_error, Result, returns, throws, ◌>>=◌, ◌>>◌}
use mcache_client.Proto.Key.{check_key}
use mcache_client.Proto.Options.{Options, initial, is_compressed}
use mcache_client.Proto.Zlib.{ZlibLibrary, compress}

-- `header_delimiter`.
abbrev pub line_end : Bytes
line_end = 13 ∷ 10 ∷ []

-- `retrieve_command_t::serialize`.
unfoldable pub serialize_retrieve : Bytes → Bytes → Result Bytes
serialize_retrieve key name = do check_key key; returns (name ++ (b' ' ∷ (key ++ line_end)))

-- `storage_command_t`.
pub record StorageCommand : Type 0 where
  pub key : Bytes
  pub value : Bytes
  pub opts : Options

-- The constructor: the value may be compressed first.
unfoldable pub storage_command : ZlibLibrary → Bytes → Bytes → Options → Result StorageCommand
storage_command zlib key input opts = do
  value ← if is_compressed opts.flags then compress zlib input else returns input
  returns (record { key = key; value = value; opts = opts })

abbrev pub cas_word : ℕ → Bytes
cas_word cas = if cas == 0 then [] else b' ' ∷ decimal cas

-- `storage_command_t::serialize`.
unfoldable pub serialize_storage : StorageCommand → Bytes → Result Bytes
serialize_storage c name = do
  check_key c.key
  returns (
      name
      ++ (b' '
          ∷ (c.key
              ++ (b' '
                  ∷ (decimal c.opts.flags
                      ++ (b' '
                          ∷ (decimal c.opts.expiration
                              ++ (b' '
                                  ∷ (decimal (length c.value)
                                      ++ (cas_word c.opts.cas
                                          ++ (line_end ++ (c.value ++ line_end))))))))))))

-- `incr_decr_command_t`, which `touch` uses too.
pub record CounterCommand : Type 0 where
  pub key : Bytes
  pub value : ℕ

-- The constructor.
unfoldable pub counter_command : Bytes → ℕ → Options → Result CounterCommand
counter_command key value opts =
    if initial opts == 0
    then returns (record { key = key; value = value })
    else throws (mc_error ErrorCode.bad_argument (codes "initial not allowed for txt"))

-- `incr_decr_command_t::serialize`.
unfoldable pub serialize_counter : CounterCommand → Bytes → Result Bytes
serialize_counter c name = do
  check_key c.key
  returns (name ++ (b' ' ∷ (c.key ++ (b' ' ∷ (decimal c.value ++ line_end)))))

-- `delete_command_t::serialize`.
unfoldable pub serialize_delete : Bytes → Result Bytes
serialize_delete key = do check_key key; returns (codes "delete " ++ (key ++ line_end))

-- `flush_all_command_t::serialize`.
unfoldable pub serialize_flush_all : ℕ → Bytes
serialize_flush_all expiration =
    codes "flush_all" ++ ((if expiration == 0 then [] else b' ' ∷ decimal expiration) ++ line_end)
