-- ===== src/Tests/Text.antt =====
-- src/proto/txt.cc: the theorems at small lines.
use mcache_client.Prelude.{◌≡◌, refl, [], ◌∷◌, Bytes, some, none, arith, decimal, digits}
use mcache_client.Proto.Key.{check_key, is_invalid, is_space}
use mcache_client.Proto.Options.{Options}
use mcache_client.Proto.Zlib.{ZlibLibrary}
use mcache_client.Proto.Txt.Requests.{serialize_storage}
use mcache_client.Proto.Txt.Lines.{read_stored, read_stored-serialize_storage}

abbrev no_zlib : ZlibLibrary
no_zlib = record { bound = λ n. n; deflate = λ room input. none; inflate = λ room input. none }

abbrev text_key : Bytes
text_key = 97 ∷ 98 ∷ []

abbrev options : Options
options = record { expiration = 5; flags = 3; cas = 17 }

-- `cas ab 3 5 1 17`, and the value on its own line.
abbrev cas_packet : Bytes
cas_packet =
    b'c' ∷ b'a' ∷ b's' ∷ b' ' ∷ b'a' ∷ b'b' ∷ b' ' ∷ b'3' ∷ b' ' ∷ b'5' ∷ b' ' ∷ b'1' ∷ b' ' ∷ b'1'
    ∷ b'7' ∷ 13 ∷ 10 ∷ b'A' ∷ 13 ∷ 10 ∷ []

read_stored-serialize_storage_example :
    read_stored cas_packet
    ≡ some (record {
      name = b'c' ∷ b'a' ∷ b's' ∷ [];
      key = text_key;
      flags = 3;
      expiration = 5;
      cas = 17;
      value = b'A' ∷ [];
    })
read_stored-serialize_storage_example =
    read_stored-serialize_storage 97 b'c' (98 ∷ []) (b'a' ∷ b's' ∷ []) (b'A' ∷ []) cas_packet
      options (unfold serialize_storage check_key is_invalid decimal digits in refl)
      (unfold is_space in (refl, (refl, (refl, tt)))) (ground arith) (ground arith) (ground arith)
      (ground arith)
