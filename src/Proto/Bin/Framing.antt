-- ===== src/Proto/Bin/Framing.antt =====
-- The requests as a server takes them apart: by the lengths in the header.
pub mod Keyed
pub mod Octets
pub mod Storage
use mcache_client.Prelude.{
  ℕ, ◌+◌, ◌-◌, ◌^◌, ◌<◌, ◌≡◌, refl, ◌++◌, arith, Bytes, length, take, drop, take_seam, drop_seam,
}
use mcache_client.Error.{Result, returns, ◌>>=◌}
use mcache_client.Proto.Bin.Header.{request_header, header_bytes, parse_header}
use mcache_client.Proto.Bin.Header.RoundTrip.{
  IsHeader, length-header_bytes, parse_header-header_bytes,
}
use mcache_client.Proto.Bin.Commands.{Lengths, request_bytes}

-- What a server finds in a packet.
pub record Request : Type 0 where
  pub opcode : ℕ
  pub cas : ℕ
  pub extras : Bytes
  pub key : Bytes
  pub value : Bytes

-- The protocol's rule: extras, key and value stand behind the header, their lengths are in it, and
-- `body_len` is the sum of all three. `rest` is what follows the packet.
unfoldable pub read_request : Bytes → Result (Request × Bytes)
read_request octets = do
  hdr ← parse_header octets
  let body = drop 24 octets
  let behind_extras = drop hdr.extras_len body
  let value_len = hdr.body_len - (hdr.extras_len + hdr.key_len)
  let behind_key = drop hdr.key_len behind_extras
  returns (
    record {
      opcode = hdr.opcode;
      cas = hdr.cas;
      extras = take hdr.extras_len body;
      key = take hdr.key_len behind_extras;
      value = take value_len behind_key;
    },
    drop value_len behind_key,
  )

-- A packet whose lengths are those of its parts.
pub record IsFramed (l : Lengths) (extras key value : Bytes) : Type 0 where
  pub extras_length : length extras ≡ l.extras_len
  pub key_length : length key ≡ l.key_len
  pub body_length : l.body_len ≡ l.extras_len + l.key_len + length value
  pub extras_fits : l.extras_len < 2 ^ 8
  pub key_fits : l.key_len < 2 ^ 16
  pub body_fits : l.body_len < 2 ^ 32

module _ (l : Lengths) (code cas : ℕ) {extras key value : Bytes} where
  fitting :
      IsFramed l extras key value
      → code < 2 ^ 8
      → cas < 2 ^ 64
      → IsHeader
          (record (request_header l.key_len l.body_len l.extras_len) { opcode = code; cas = cas })
  unfolding request_header
  fitting f c b = record {
    magic = omega arith;
    opcode = c;
    key_len = f.key_fits;
    extras_len = f.extras_fits;
    data_type = omega arith;
    status = omega arith;
    body_len = f.body_fits;
    opaque = omega arith;
    cas = b;
  }

pub read_request-request_bytes :
    (l : Lengths) (code cas : ℕ) (extras key value rest : Bytes)
    → IsFramed l extras key value
    → code < 2 ^ 8
    → cas < 2 ^ 64
    → read_request (request_bytes l code cas ++ (extras ++ (key ++ (value ++ rest))))
      ≡ returns
          (record { opcode = code; cas = cas; extras = extras; key = key; value = value }, rest)
unfolding read_request request_bytes request_header
read_request-request_bytes l code cas extras key value rest f c b =
    let hdr = record (request_header l.key_len l.body_len l.extras_len) {
      opcode = code;
      cas = cas;
    } in
    let value_rest = value ++ rest in
    let key_rest = key ++ value_rest in
    let value_len : l.body_len - (l.extras_len + l.key_len) ≡ length value =
      omega (arith, f.body_length) in
    rw (
      parse_header-header_bytes hdr (extras ++ key_rest) (fitting l code cas f c b),
      drop_seam 24 (header_bytes hdr) (extras ++ key_rest) (length-header_bytes hdr),
      take_seam l.extras_len extras key_rest f.extras_length,
      drop_seam l.extras_len extras key_rest f.extras_length,
      take_seam l.key_len key value_rest f.key_length,
      drop_seam l.key_len key value_rest f.key_length,
      value_len,
      take_seam (length value) value rest refl,
      drop_seam (length value) value rest refl,
    )
