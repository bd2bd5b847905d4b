-- ===== src/Tests/Proto.antt =====
-- src/proto/binary.cc, src/proto/zlib.cc and src/proto/aux.h: the theorems at small packets.
use mcache_client.Prelude.{ℕ, ◌^◌, ◌<◌, ◌≤◌, ◌≡◌, ◌↔◌, refl, [], ◌∷◌, Bytes, some, arith, All}
use mcache_client.Error.{Exception, returns, throws}
use mcache_client.Proto.Key.{check_key, IsKeyOctet, check_key-returns}
use mcache_client.Proto.Zlib.{ZlibLibrary, Inflates}
use mcache_client.Proto.Response.{SingleBodyResponse, set_single_body}
use mcache_client.Proto.Bin.Header.{Header, header_bytes}
use mcache_client.Proto.Bin.Header.RoundTrip.{IsHeader}
use mcache_client.Proto.Bin.Responses.{deserialize_touch}
use mcache_client.Proto.Bin.Responses.Statuses.{IsReply}
use mcache_client.Proto.Bin.Responses.Bodies.{deserialize_touch_overflows}

-- A library that stores the octets as they are.
abbrev pub storing : ZlibLibrary
storing = record {
  bound = λ n. n;
  deflate = λ room input. some input;
  inflate = λ room input. some input;
}

pub storing-Inflates : Inflates storing
storing-Inflates input out e = cc

abbrev pub short_key : Bytes
short_key = 97 ∷ 98 ∷ []

check_key-returns_example :
    (check_key short_key ≡ returns tt) ↔ ((2 ≤ 250) × All IsKeyOctet short_key)
check_key-returns_example = check_key-returns short_key

abbrev pub reply : ℕ → ℕ → ℕ → Header
reply status extras_len body_len = record {
  magic = 0x81;
  opcode = 0;
  key_len = 0;
  extras_len = extras_len;
  data_type = 0;
  status = status;
  body_len = body_len;
  opaque = 0;
  cas = 17;
}

reply-IsHeader :
    (status extras_len body_len : ℕ)
    → status < 2 ^ 16
    → extras_len < 2 ^ 8
    → body_len < 2 ^ 32
    → IsHeader (reply status extras_len body_len)
reply-IsHeader status extras_len body_len s e b = record {
  magic = ground arith;
  opcode = ground arith;
  key_len = ground arith;
  extras_len = e;
  data_type = ground arith;
  status = s;
  body_len = b;
  opaque = ground arith;
  cas = ground arith;
}

pub reply-IsReply :
    (status extras_len body_len : ℕ)
    → status < 2 ^ 16
    → extras_len < 2 ^ 8
    → body_len < 2 ^ 32
    → IsReply (reply status extras_len body_len)
reply-IsReply status extras_len body_len s e b = record {
  fits = reply-IsHeader status extras_len body_len s e b;
  magic = refl;
}

abbrev refusal : ℕ
refusal = 5

abbrev failure : Header
failure = reply 2 0 9

abbrev hit : Header
hit = reply 0 4 9

abbrev count : Header
count = reply 0 0 8

abbrev nine : Bytes
nine = 1 ∷ 2 ∷ 3 ∷ 4 ∷ 5 ∷ 6 ∷ 7 ∷ 8 ∷ 9 ∷ []

deserialize_touch_overflows_example :
    (r : SingleBodyResponse) × (deserialize_touch (header_bytes (reply 0 0 9)) ≡ returns r)
    × (r.bytes ≡ 9)
    × (set_single_body r nine ≡ throws Exception.fault)
deserialize_touch_overflows_example =
    deserialize_touch_overflows (reply 0 0 9)
      (reply-IsReply 0 0 9 (ground arith) (ground arith) (ground arith)) refl nine (ground arith)
      refl
