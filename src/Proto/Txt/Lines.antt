-- ===== src/Proto/Txt/Lines.antt =====
-- src/proto/txt.cc: what a server reads of a storage request,
-- `<command name> <key> <flags> <exptime> <bytes> [<cas unique>]` and the value on lines of their own.
use mcache_client.Prelude.{
  ℕ, ◌^◌, ◌<◌, ◌≡◌, refl, sym, false, inl, inr, [], ◌∷◌, ◌++◌, Option, none, some, ◌==◌,
  if◌then◌else◌, Bool-cases, Bytes, All, decimal, length, take, drop, take_seam, arith,
}
use mcache_client.Error.{returns, >>=-eq-returns, returns_injective}
use mcache_client.Proto.Key.{check_key, check_key-returns, is_space}
use mcache_client.Proto.Options.{Options}
use mcache_client.Proto.Txt.Requests.{serialize_storage, line_end, cas_word}
use mcache_client.Proto.Txt.Responses.{and_then}
use mcache_client.Proto.Txt.Streams.{
  is_digit, read_word, read_number, read_word_first, read_word-space, read_number-decimal,
}
use mcache_client.Proto.Txt.Values.{key_octets}

-- What a server finds.
pub record Stored : Type 0 where
  pub name : Bytes
  pub key : Bytes
  pub flags : ℕ
  pub expiration : ℕ
  pub cas : ℕ
  pub value : Bytes

-- Behind the size stands the `cas`, or the line ends.
unfoldable pub read_cas : Bytes → Option (ℕ × Bytes)
read_cas [] = none
read_cas (c ∷ s) =
    let number = read_number 64 (c ∷ s) in if c == b' ' then number else some (0, c ∷ s)

unfoldable pub read_stored : Bytes → Option Stored
unfolding read_cas
read_stored s = and_then (read_word s) none λ name s1. and_then (read_word s1) none λ key s2.
    and_then (read_number 32 s2) none λ flags s3. and_then (read_number 64 s3) none λ expiration s4.
      and_then (read_number 64 s4) none λ bytes s5. and_then (read_cas s5) none λ cas s6.
        some (record {
          name = name;
          key = key;
          flags = flags;
          expiration = expiration;
          cas = cas;
          value = take bytes (drop 2 s6);
        })

-- The end of the line and the value's line.
abbrev value_part : Bytes → Bytes
value_part value = line_end ++ (value ++ line_end)

read_cas-cas_word :
    (cas : ℕ) (value : Bytes)
    → cas < 2 ^ 64
    → read_cas (cas_word cas ++ value_part value) ≡ some (cas, value_part value)
unfolding read_cas
read_cas-cas_word cas value h = elim (Bool-cases (cas == 0)) [
  | inl none_given ↦ let zero : cas ≡ 0 = ground arith in rw none_given (rw zero refl)
  | inr given ↦
      rw given
        (read_number-decimal 64 cas 13 (10 ∷ (value ++ line_end)) h h (unfold is_digit in refl)).0
]

read_bytes-cas_word :
    (bytes cas : ℕ) (value : Bytes)
    → bytes < 2 ^ 64
    → read_number 64 (b' ' ∷ (decimal bytes ++ (cas_word cas ++ value_part value)))
      ≡ some (bytes, cas_word cas ++ value_part value)
read_bytes-cas_word bytes cas value h = elim (Bool-cases (cas == 0)) [
  | inl none_given ↦
      rw none_given
        (read_number-decimal 64 bytes 13 (10 ∷ (value ++ line_end)) h h (unfold is_digit in refl)).0
  | inr given ↦
      rw given
        (read_number-decimal 64 bytes b' ' (decimal cas ++ value_part value) h h
          (unfold is_digit in refl)).0
]

-- A server that reads the packet of a storage command with a key that is not empty, a name without
-- spaces, 32 bits of flags, and an expiration, a size and a `cas` of 64 bits finds the command's
-- name, the key, the flags, the expiration, the `cas` (zero where the packet has none) and the value.
pub read_stored-serialize_storage :
    (c n : ℕ) (key name value packet : Bytes) (opts : Options)
    → serialize_storage (record { key = c ∷ key; value = value; opts = opts }) (n ∷ name)
      ≡ returns packet
    → All (λ d. is_space d ≡ false) (n ∷ name)
    → opts.flags < 2 ^ 32
    → opts.expiration < 2 ^ 64
    → length value < 2 ^ 64
    → opts.cas < 2 ^ 64
    → read_stored packet
      ≡ some (record {
        name = n ∷ name;
        key = c ∷ key;
        flags = opts.flags;
        expiration = opts.expiration;
        cas = opts.cas;
        value = value;
      })
unfolding serialize_storage read_stored
read_stored-serialize_storage c n key name value packet opts e a f x v u =
    let (done, passed, same) = >>=-eq-returns (check_key (c ∷ key)) _ e in
    let octets = key_octets (c ∷ key) ((check_key-returns (c ∷ key)).0 passed).1 in
    let last = cas_word opts.cas ++ value_part value in
    let s4 = decimal (length value) ++ last in
    let s3 = decimal opts.expiration ++ b' ' ∷ s4 in
    let s2 = decimal opts.flags ++ b' ' ∷ s3 in
    let first = read_word_first n name (c ∷ key ++ b' ' ∷ s2) a in
    let second = read_word-space c key s2 octets in
    let third =
      (read_number-decimal 32 opts.flags b' ' s3 f (omega arith) (unfold is_digit in refl)).0 in
    let fourth = (read_number-decimal 64 opts.expiration b' ' s4 x x (unfold is_digit in refl)).0 in
    let fifth = read_bytes-cas_word (length value) opts.cas value v in
    let sixth = read_cas-cas_word opts.cas value u in
    rw
      (
        sym (returns_injective same),
        first,
        second,
        third,
        fourth,
        fifth,
        sixth,
        take_seam (length value) value line_end refl,
      )
      refl
