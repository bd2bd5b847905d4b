-- ===== src/Proto/Bin/Framing/Keyed.antt =====
-- The requests without a value: retrieval, deletion, counters, `touch` and `flush_all`.
use mcache_client.Prelude.{
  ℕ, ◌^◌, ◌≤◌, ◌<◌, ◌≡◌, refl, ◌∙◌, sym, ap, [], ◌++◌, arith, Bytes, length, length-append, be,
  length-be, append_assoc,
}
use mcache_client.Error.{returns, returns_injective, ◌>>◌, >>=-eq-returns}
use mcache_client.Proto.Key.{check_key, check_key-returns}
use mcache_client.Proto.Options.{Options, initial}
use mcache_client.Proto.Bin.Framing.{IsFramed, read_request, read_request-request_bytes}
use mcache_client.Proto.Bin.Commands.{
  Lengths, request_bytes, key_command, serialize_key, counter_command, serialize_counter,
  touch_command, serialize_touch,
}

-- What a checked serialisation comes to.
pub checked :
    (key sent packet : Bytes)
    → (check_key key >> returns sent) ≡ returns packet
    → (length key ≤ 250) × (packet ≡ sent)
checked key sent packet e =
    let (u, passed, same) = >>=-eq-returns (check_key key) (λ _. returns sent) e in
    (((check_key-returns key).0 passed).0, sym (returns_injective same))

-- A packet with extras and a key only.
keyed :
    (l : Lengths) (code : ℕ) (extras key rest : Bytes)
    → IsFramed l extras key []
    → code < 2 ^ 8
    → read_request ((request_bytes l code 0 ++ (extras ++ key)) ++ rest)
      ≡ returns (record { opcode = code; cas = 0; extras = extras; key = key; value = [] }, rest)
keyed l code extras key rest f c =
    rw (append_assoc (request_bytes l code 0) (extras ++ key) rest, append_assoc extras key rest)
      (read_request-request_bytes l code 0 extras key [] rest f c (omega arith))

module _ (key packet rest : Bytes) (code : ℕ) (c : code < 2 ^ 8) where
  -- A server that reads a `get` or `gets` packet finds the operation code, the key and nothing else,
  -- and goes on where the packet ends.
  pub read_request-serialize_key :
      serialize_key (key_command key) code ≡ returns packet
      → read_request (packet ++ rest)
        ≡ returns (record { opcode = code; cas = 0; extras = []; key = key; value = [] }, rest)
  unfolding serialize_key key_command
  read_request-serialize_key e =
      let (short, shape) = checked key _ packet e in
      rw shape (
        keyed _ code [] key rest
          (record {
            extras_length = refl;
            key_length = omega arith;
            body_length = omega arith;
            extras_fits = omega arith;
            key_fits = omega arith;
            body_fits = omega arith;
          })
          c)

  -- A server that reads an `incr` or `decr` packet finds the operation code, the amount, the initial
  -- value and the expiration as extras, the key and no value, and goes on where the packet ends.
  pub read_request-serialize_counter :
      (value : ℕ) (opts : Options)
      → serialize_counter (counter_command key value opts) code ≡ returns packet
      → read_request (packet ++ rest)
        ≡ returns (
          record {
            opcode = code;
            cas = 0;
            extras = be 8 value ++ (be 8 (initial opts) ++ be 4 opts.expiration);
            key = key;
            value = [];
          },
          rest,
        )
  unfolding serialize_counter counter_command
  read_request-serialize_counter value opts e =
      let a = be 8 value in
      let b = be 8 (initial opts) in
      let d = be 4 opts.expiration in
      let (short, shape) = checked key _ packet e in
      let regroup = append_assoc a (b ++ d) key ∙ ap (◌++◌ a) (append_assoc b d key) in
      rw (shape, ← regroup)
        (keyed _ code (a ++ (b ++ d)) key rest
          (record {
            extras_length = omega (
              arith,
              length-append a (b ++ d),
              length-append b d,
              length-be 8 value,
              length-be 8 (initial opts),
              length-be 4 opts.expiration,
            );
            key_length = omega arith;
            body_length = omega arith;
            extras_fits = omega arith;
            key_fits = omega arith;
            body_fits = omega arith;
          })
          c)

  -- A server that reads a `touch` packet finds the operation code, the expiration as extras, the key and
  -- no value, and goes on where the packet ends.
  pub read_request-serialize_touch :
      (expiration : ℕ)
      → serialize_touch (touch_command key expiration) code ≡ returns packet
      → read_request (packet ++ rest)
        ≡ returns (
          record { opcode = code; cas = 0; extras = be 4 expiration; key = key; value = [] },
          rest,
        )
  unfolding serialize_touch touch_command
  read_request-serialize_touch expiration e =
      let (short, shape) = checked key _ packet e in
      rw shape (
        keyed _ code (be 4 expiration) key rest
          (record {
            extras_length = length-be 4 expiration;
            key_length = omega arith;
            body_length = omega arith;
            extras_fits = omega arith;
            key_fits = omega arith;
            body_fits = omega arith;
          })
          c)
