-- ===== src/Proto/Bin/Commands.antt =====
-- include/mcache/proto/binary.h and src/proto/binary.cc: the requests. Each command keeps the lengths
-- that its constructor computed, in the widths of the source.
use mcache_client.Prelude.{ℕ, ◌+◌, ◌%◌, ◌^◌, Bool, [], ◌++◌, if◌then◌else◌, Bytes, be, length}
use mcache_client.Error.{Result, returns, ◌>>=◌, ◌>>◌}
use mcache_client.Proto.Key.{check_key}
use mcache_client.Proto.Options.{Options, initial, is_compressed}
use mcache_client.Proto.Zlib.{ZlibLibrary, compress}
use mcache_client.Proto.Bin.Header.{request_header, header_bytes}

-- `command_t`.
pub record Lengths : Type 0 where
  pub key_len : ℕ
  pub body_len : ℕ
  pub extras_len : ℕ

-- The header of a request with this operation code and this `cas`.
unfoldable pub request_bytes : Lengths → ℕ → ℕ → Bytes
request_bytes l code cas =
    header_bytes
      (record (request_header l.key_len l.body_len l.extras_len) { opcode = code; cas = cas })

-- `retrieve_command_t`, and `delete_command_t`, which has the same members.
pub record KeyCommand : Type 0 where
  pub key : Bytes
  pub lengths : Lengths

unfoldable pub key_command : Bytes → KeyCommand
key_command key = record {
  key = key;
  lengths = record {
    key_len = length key % 2 ^ 16;
    body_len = length key % 2 ^ 32;
    extras_len = 0;
  };
}

-- `retrieve_command_t::serialize`.
unfoldable pub serialize_key : KeyCommand → ℕ → Result Bytes
serialize_key c code = do check_key c.key; returns (request_bytes c.lengths code 0 ++ c.key)

-- `storage_command_t<has_extras>`.
pub record StorageCommand : Type 0 where
  pub has_extras : Bool
  pub key : Bytes
  pub value : Bytes
  pub opts : Options
  pub lengths : Lengths

abbrev pub storage_extras_length : ℕ
storage_extras_length = 8

-- The constructor: the value may be compressed first.
unfoldable pub storage_command :
    ZlibLibrary → Bool → Bytes → Bytes → Options → Result StorageCommand
storage_command zlib has_extras key input opts = do
  value ← if is_compressed opts.flags then compress zlib input else returns input
  let key_len = length key % 2 ^ 16
  let extras_len = if has_extras then storage_extras_length else 0
  returns (record {
    has_extras = has_extras;
    key = key;
    value = value;
    opts = opts;
    lengths = record {
      key_len = key_len;
      body_len = (key_len + length value + extras_len) % 2 ^ 32;
      extras_len = extras_len;
    };
  })

-- `serialize`, in both specialisations.
unfoldable pub serialize_storage : StorageCommand → ℕ → Result Bytes
serialize_storage c code = do
  check_key c.key
  let extras = if c.has_extras then be 4 c.opts.flags ++ be 4 c.opts.expiration else []
  returns (request_bytes c.lengths code c.opts.cas ++ (extras ++ (c.key ++ c.value)))

-- `incr_decr_command_t`.
pub record CounterCommand : Type 0 where
  pub key : Bytes
  pub value : ℕ
  pub opts : Options
  pub lengths : Lengths

abbrev pub counter_extras_length : ℕ
counter_extras_length = 20

unfoldable pub counter_command : Bytes → ℕ → Options → CounterCommand
counter_command key value opts = record {
  key = key;
  value = value;
  opts = opts;
  lengths = record {
    key_len = length key % 2 ^ 16;
    body_len = (length key + counter_extras_length) % 2 ^ 32;
    extras_len = counter_extras_length;
  };
}

unfoldable pub serialize_counter : CounterCommand → ℕ → Result Bytes
serialize_counter c code = do
  check_key c.key
  returns (
      request_bytes c.lengths code 0
      ++ (be 8 c.value ++ (be 8 (initial c.opts) ++ (be 4 c.opts.expiration ++ c.key))))

-- `touch_command_t`, and `flush_all_command_t` with no key.
pub record ExpirationCommand : Type 0 where
  pub key : Bytes
  pub expiration : ℕ
  pub lengths : Lengths

abbrev pub expiration_extras_length : ℕ
expiration_extras_length = 4

unfoldable pub touch_command : Bytes → ℕ → ExpirationCommand
touch_command key expiration = record {
  key = key;
  expiration = expiration;
  lengths = record {
    key_len = length key % 2 ^ 16;
    body_len = (length key + expiration_extras_length) % 2 ^ 32;
    extras_len = expiration_extras_length;
  };
}

unfoldable pub serialize_touch : ExpirationCommand → ℕ → Result Bytes
serialize_touch c code = do
  check_key c.key
  returns (request_bytes c.lengths code 0 ++ (be 4 c.expiration ++ c.key))

unfoldable pub flush_all_command : ℕ → ExpirationCommand
flush_all_command expiration = record {
  key = [];
  expiration = expiration;
  lengths = record {
    key_len = 0;
    body_len = expiration_extras_length;
    extras_len = expiration_extras_length;
  };
}

-- `api`, the operation codes that the client uses.
abbrev pub get_code : ℕ
get_code = 0x00

abbrev pub set_code : ℕ
set_code = 0x01

abbrev pub add_code : ℕ
add_code = 0x02

abbrev pub replace_code : ℕ
replace_code = 0x03

abbrev pub delete_code : ℕ
delete_code = 0x04

abbrev pub increment_code : ℕ
increment_code = 0x05

abbrev pub decrement_code : ℕ
decrement_code = 0x06

abbrev pub flush_code : ℕ
flush_code = 0x08

abbrev pub append_code : ℕ
append_code = 0x0E

abbrev pub prepend_code : ℕ
prepend_code = 0x0F

abbrev pub touch_code : ℕ
touch_code = 0x1C

-- `delete_command_t::serialize`.
unfoldable pub serialize_delete : KeyCommand → Result Bytes
unfolding serialize_key
serialize_delete c = serialize_key c delete_code

-- `flush_all_command_t::serialize`: there is no key to check.
unfoldable pub serialize_flush_all : ExpirationCommand → Result Bytes
serialize_flush_all c = returns (request_bytes c.lengths flush_code 0 ++ be 4 c.expiration)
