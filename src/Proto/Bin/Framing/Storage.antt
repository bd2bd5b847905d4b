-- ===== src/Proto/Bin/Framing/Storage.antt =====
-- The requests with a value: set, add, replace, cas, append and prepend.
use mcache_client.Prelude.{
  ℕ, ◌+◌, ◌%◌, ◌^◌, ◌≤◌, ◌<◌, ◌≡◌, refl, ◌∙◌, sym, Bool, true, false, [], ◌++◌, arith,
  if◌then◌else◌, Bytes, length, length-append, be, length-be, append_assoc,
}
use mcache_client.Error.{Result, returns, returns_injective, >>=-eq-returns}
use mcache_client.Proto.Options.{Options, is_compressed}
use mcache_client.Proto.Zlib.{ZlibLibrary, compress}
use mcache_client.Proto.Bin.Framing.{read_request, read_request-request_bytes}
use mcache_client.Proto.Bin.Framing.Keyed.{checked}
use mcache_client.Proto.Bin.Commands.{
  StorageCommand, storage_command, serialize_storage, request_bytes,
}

-- What a storage packet carries besides key and value.
abbrev pub storage_extras : Bool → Options → Bytes
storage_extras has_extras opts = if has_extras then be 4 opts.flags ++ be 4 opts.expiration else []

-- The value that is sent.
abbrev pub sent_value : ZlibLibrary → Bytes → Options → Result Bytes
sent_value zlib input opts = if is_compressed opts.flags then compress zlib input else returns input

pub length-storage_extras :
    (b : Bool) (opts : Options) → length (storage_extras b opts) ≡ (if b then 8 else 0)
length-storage_extras true opts = omega (
  arith,
  length-append (be 4 opts.flags) (be 4 opts.expiration),
  length-be 4 opts.flags,
  length-be 4 opts.expiration,
)
length-storage_extras false opts = refl

-- The command that the constructor makes of a value to be sent.
abbrev pub built : Bool → Bytes → Bytes → Options → StorageCommand
built b key value opts = record {
  has_extras = b;
  key = key;
  value = value;
  opts = opts;
  lengths = record {
    key_len = length key % 2 ^ 16;
    body_len = (length key % 2 ^ 16 + length value + (if b then 8 else 0)) % 2 ^ 32;
    extras_len = if b then 8 else 0;
  };
}

extras_bound : (b : Bool) → (if b then 8 else 0) ≤ 8
extras_bound b = ground arith

read_request-built :
    (b : Bool) (key value packet rest : Bytes) (opts : Options) (code : ℕ)
    → serialize_storage (built b key value opts) code ≡ returns packet
    → code < 2 ^ 8
    → opts.cas < 2 ^ 64
    → length value + 258 < 2 ^ 32
    → read_request (packet ++ rest)
      ≡ returns (
        record {
          opcode = code;
          cas = opts.cas;
          extras = storage_extras b opts;
          key = key;
          value = value;
        },
        rest,
      )
unfolding serialize_storage
read_request-built b key value packet rest opts code e cb ob small =
    let extras = storage_extras b opts in
    let n : ℕ = if b then 8 else 0 in
    let le : n ≤ 8 = extras_bound b in
    let head = request_bytes (built b key value opts).lengths code opts.cas in
    let (short, shape) = checked key _ packet e in
    rw
      (
        shape,
        append_assoc head (extras ++ (key ++ value)) rest,
        append_assoc extras (key ++ value) rest,
        append_assoc key value rest,
      )
      (read_request-request_bytes _ code opts.cas extras key value rest
        (record {
          extras_length = length-storage_extras b opts;
          key_length = omega arith;
          body_length = omega arith;
          extras_fits = omega arith;
          key_fits = omega arith;
          body_fits = omega arith;
        })
        cb ob)

module _ (zlib : ZlibLibrary) (b : Bool) (key input : Bytes) (opts : Options) where
  pub storage_command-value :
      (c : StorageCommand)
      → storage_command zlib b key input opts ≡ returns c
      → (value : Bytes) × (sent_value zlib input opts ≡ returns value)
        × (c ≡ built b key value opts)
  unfolding storage_command
  storage_command-value c e =
      let (value, made, same) = >>=-eq-returns (sent_value zlib input opts) _ e in
      (value, made, sym (returns_injective same))

  -- A server that reads a storage packet finds the operation code, the `cas`, the flags and the
  -- expiration (where the command has extras), the key, and the value as the client sends it: the
  -- caller's, or what `compress` made of it if the flags ask for that. It goes on where the packet ends.
  -- The values here are shorter than 4 GiB by 258 octets, the longest extras and key.
  pub read_request-serialize_storage :
      (c : StorageCommand) (code : ℕ) (value packet rest : Bytes)
      → storage_command zlib b key input opts ≡ returns c
      → sent_value zlib input opts ≡ returns value
      → serialize_storage c code ≡ returns packet
      → code < 2 ^ 8
      → opts.cas < 2 ^ 64
      → length value + 258 < 2 ^ 32
      → read_request (packet ++ rest)
        ≡ returns (
          record {
            opcode = code;
            cas = opts.cas;
            extras = storage_extras b opts;
            key = key;
            value = value;
          },
          rest,
        )
  unfolding serialize_storage
  read_request-serialize_storage c code value packet rest made sent e cb ob small =
      let (value', sent', shape) = storage_command-value c made in
      let same : value' ≡ value = returns_injective (sym sent' ∙ sent) in
      read_request-built b key value packet rest opts code (rw same at (rw shape at e)) cb ob small
