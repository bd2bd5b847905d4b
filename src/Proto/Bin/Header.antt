-- ===== src/Proto/Bin/Header.antt =====
-- src/proto/binary.cc, `header_t`: the 24 octets in front of each packet.
pub mod RoundTrip
use mcache_client.Prelude.{
  ℕ, ◌%◌, ◌^◌, ◌++◌, [], ◌∷◌, Bytes, be, from_be, take, drop, length, ltb, if◌then◌else◌,
}
use mcache_client.Error.{Exception, Result, returns, throws}

-- The fields in the order in which they stand in memory; `status` of a response and `reserved` of a
-- request share their place.
pub record Header : Type 0 where
  pub magic : ℕ
  pub opcode : ℕ
  pub key_len : ℕ
  pub extras_len : ℕ
  pub data_type : ℕ
  pub status : ℕ
  pub body_len : ℕ
  pub opaque : ℕ
  pub cas : ℕ

abbrev pub request_magic : ℕ
request_magic = 0x80

abbrev pub response_magic : ℕ
response_magic = 0x81

abbrev pub header_size : ℕ
header_size = 24

-- The constructor for a request.
unfoldable pub request_header : ℕ → ℕ → ℕ → Header
request_header key_len body_len extras_len = record {
  magic = request_magic;
  opcode = 0;
  key_len = key_len;
  extras_len = extras_len;
  data_type = 0;
  status = 0;
  body_len = body_len;
  opaque = 0;
  cas = 0;
}

-- `prepare_serialization`, and the copy of the object's octets that follows it each time.
unfoldable pub header_bytes : Header → Bytes
header_bytes h =
    h.magic % 2 ^ 8
    ∷ h.opcode % 2 ^ 8
    ∷ (be 2 h.key_len
        ++ (h.extras_len % 2 ^ 8
            ∷ h.data_type % 2 ^ 8
            ∷ (be 2 h.status ++ (be 4 h.body_len ++ (be 4 h.opaque ++ be 8 h.cas)))))

-- The octets at an offset.
abbrev pub slice : ℕ → ℕ → Bytes → Bytes
slice offset size octets = take size (drop offset octets)

-- The constructor for a response that was read. It reads 24 octets of the string, whatever its size.
unfoldable pub parse_header : Bytes → Result Header
parse_header octets =
    if ltb (length octets) header_size
    then throws Exception.fault
    else returns (record {
      magic = from_be (slice 0 1 octets);
      opcode = from_be (slice 1 1 octets);
      key_len = from_be (slice 2 2 octets);
      extras_len = from_be (slice 4 1 octets);
      data_type = from_be (slice 5 1 octets);
      status = from_be (slice 6 2 octets);
      body_len = from_be (slice 8 4 octets);
      opaque = from_be (slice 12 4 octets);
      cas = from_be (slice 16 8 octets);
    })
