-- ===== src/Proto/Bin/Header/RoundTrip.antt =====
-- What one side writes into a header, the other reads from it.
use mcache_client.Prelude.{
  ℕ, ◌%◌, ◌^◌, ◌<◌, ◌≡◌, refl, ◌++◌, [], ◌∷◌, arith, Bytes, be, from_be, from_be-be, length,
  le→not_ltb,
}
use mcache_client.Error.{returns}
use mcache_client.Proto.Bin.Header.{Header, header_bytes, parse_header}

-- Every field fits in its place.
pub record IsHeader (h : Header) : Type 0 where
  pub magic : h.magic < 2 ^ 8
  pub opcode : h.opcode < 2 ^ 8
  pub key_len : h.key_len < 2 ^ 16
  pub extras_len : h.extras_len < 2 ^ 8
  pub data_type : h.data_type < 2 ^ 8
  pub status : h.status < 2 ^ 16
  pub body_len : h.body_len < 2 ^ 32
  pub opaque : h.opaque < 2 ^ 32
  pub cas : h.cas < 2 ^ 64

pub length-header_bytes : (h : Header) → length (header_bytes h) ≡ 24
unfolding header_bytes be
length-header_bytes h = refl

octet : (n : ℕ) → n < 256 → from_be (n % 256 ∷ []) ≡ n
unfolding from_be
octet n h = omega arith

-- A header whose fields are in range is read as it was written, whatever follows it.
pub parse_header-header_bytes :
    (h : Header) (rest : Bytes) → IsHeader h → parse_header (header_bytes h ++ rest) ≡ returns h
unfolding parse_header header_bytes be
parse_header-header_bytes h rest v =
    rw (le→not_ltb (length (header_bytes h ++ rest)) 24 (omega arith)) (λ i. returns (record {
      magic = octet h.magic v.magic i;
      opcode = octet h.opcode v.opcode i;
      key_len = from_be-be 2 h.key_len v.key_len i;
      extras_len = octet h.extras_len v.extras_len i;
      data_type = octet h.data_type v.data_type i;
      status = from_be-be 2 h.status v.status i;
      body_len = from_be-be 4 h.body_len v.body_len i;
      opaque = from_be-be 4 h.opaque v.opaque i;
      cas = from_be-be 8 h.cas v.cas i;
    }))
