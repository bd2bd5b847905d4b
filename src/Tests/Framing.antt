-- ===== src/Tests/Framing.antt =====
-- src/proto/binary.cc: what a server reads of small requests.
use mcache_client.Prelude.{ℕ, ◌≡◌, refl, true, [], ◌∷◌, ◌++◌, Bytes, some, arith, be}
use mcache_client.Error.{returns}
use mcache_client.Proto.Options.{Options, is_compressed}
use mcache_client.Proto.Key.{check_key, is_invalid}
use mcache_client.Proto.Zlib.{ZlibLibrary}
use mcache_client.Proto.Bin.Header.{header_bytes, request_header}
use mcache_client.Proto.Bin.Commands.{
  StorageCommand, storage_command, serialize_storage, request_bytes,
}
use mcache_client.Proto.Bin.Framing.{read_request}
use mcache_client.Proto.Bin.Framing.Octets.{Bounded, serialize_storage-Bounded}
use mcache_client.Proto.Bin.Framing.Storage.{read_request-serialize_storage}

abbrev storing : ZlibLibrary
storing = record {
  bound = λ n. n;
  deflate = λ room input. some input;
  inflate = λ room input. some input;
}

abbrev short_key : Bytes
short_key = 97 ∷ 98 ∷ []

-- A packet with a key of two octets, and lengths and a `cas` below 256.
abbrev packet_of : ℕ → ℕ → ℕ → ℕ → Bytes → Bytes
packet_of code extras_len body_len cas body =
    0x80 ∷ code ∷ 0 ∷ 2 ∷ extras_len ∷ 0 ∷ 0 ∷ 0 ∷ 0 ∷ 0 ∷ 0 ∷ body_len ∷ 0 ∷ 0 ∷ 0 ∷ 0 ∷ 0 ∷ 0 ∷ 0
    ∷ 0 ∷ 0 ∷ 0 ∷ 0 ∷ cas ∷ body

abbrev expiring : Options
expiring = record { expiration = 5; flags = 3; cas = 17 }

abbrev stored_command : StorageCommand
stored_command = record {
  has_extras = true;
  key = short_key;
  value = 65 ∷ [];
  opts = expiring;
  lengths = record { key_len = 2; body_len = 11; extras_len = 8 };
}

read_request-serialize_storage_example :
    read_request (packet_of 1 8 11 17 (be 4 3 ++ be 4 5 ++ (short_key ++ 65 ∷ [])) ++ [])
    ≡ returns (
      record { opcode = 1; cas = 17; extras = be 4 3 ++ be 4 5; key = short_key; value = 65 ∷ [] },
      [],
    )
read_request-serialize_storage_example =
    read_request-serialize_storage storing true short_key (65 ∷ []) expiring stored_command 1
      (65 ∷ []) (packet_of 1 8 11 17 (be 4 3 ++ be 4 5 ++ (short_key ++ 65 ∷ []))) []
      (unfold storage_command is_compressed in refl) (unfold is_compressed in refl)
      (unfold serialize_storage check_key is_invalid request_bytes request_header header_bytes be in
        refl)
      (ground arith) (ground arith) (ground arith)

serialize_storage-Bounded_example :
    Bounded stored_command
      (65 ∷ [])
      (packet_of 1 8 11 17 (be 4 3 ++ be 4 5 ++ (short_key ++ 65 ∷ [])))
serialize_storage-Bounded_example =
    serialize_storage-Bounded storing true short_key (65 ∷ []) expiring stored_command 1 (65 ∷ [])
      (packet_of 1 8 11 17 (be 4 3 ++ be 4 5 ++ (short_key ++ 65 ∷ [])))
      (unfold storage_command is_compressed in refl) (unfold is_compressed in refl)
      (unfold serialize_storage check_key is_invalid request_bytes request_header header_bytes be in
        refl)
      (ground arith, (ground arith, tt)) (ground arith, tt)
