-- ===== src/Proto/Txt/Values.antt =====
-- src/proto/txt.cc: the lines that announce a value, `VALUE <key> <flags> <bytes> [<cas unique>]`, and
-- the value behind them.
use mcache_client.Prelude.{
  ℕ, ◌+◌, ◌-◌, ◌%◌, ◌^◌, ◌<◌, ◌≡◌, refl, ap, false, [], ◌∷◌, ◌++◌, Option, none, some, Bytes, All,
  decimal, codes, starts_with, length, ltb, le→not_ltb, arith, length-append, take_seam,
}
use mcache_client.Error.{returns}
use mcache_client.Proto.Key.{IsKeyOctet, is_space}
use mcache_client.Proto.Options.{is_compressed}
use mcache_client.Proto.Zlib.{ZlibLibrary}
use mcache_client.Proto.Response.{retrieval_found}
use mcache_client.Proto.Txt.Requests.{line_end}
use mcache_client.Proto.Txt.Streams.{
  span, skip_space, is_digit, read_word, read_number, last_number, read_word-space,
  read_number-decimal,
}
use mcache_client.Proto.Txt.Responses.{deserialize_value, deserialize_retrieve, set_retrieved_body}

-- The line's end, with the `cas` in front of it or not.
abbrev pub cas_part : Option ℕ → Bytes
cas_part none = line_end
cas_part (some cas) = b' ' ∷ (decimal cas ++ line_end)

abbrev pub cas_value : Option ℕ → ℕ
cas_value none = 0
cas_value (some cas) = cas

abbrev pub value_line : Bytes → ℕ → ℕ → Option ℕ → Bytes
value_line key flags bytes cas =
    codes "VALUE"
    ++ (b' ' ∷ (key ++ (b' ' ∷ (decimal flags ++ (b' ' ∷ (decimal bytes ++ cas_part cas))))))

abbrev pub footer : Bytes
footer = line_end ++ (b'E' ∷ b'N' ∷ b'D' ∷ line_end)

pub key_octets : (key : Bytes) → All IsKeyOctet key → All (λ c. is_space c ≡ false) key
unfolding is_space
key_octets [] a = tt
key_octets (c ∷ key) (h, a) = (ground arith, key_octets key a)

read_bytes :
    (bytes : ℕ) (cas : Option ℕ)
    → bytes < 2 ^ 64
    → read_number 64 (b' ' ∷ (decimal bytes ++ cas_part cas)) ≡ some (bytes, cas_part cas)
read_bytes bytes none h =
    (read_number-decimal 64 bytes 13 (10 ∷ []) h h (unfold is_digit in refl)).0
read_bytes bytes (some cas) h =
    (read_number-decimal 64 bytes b' ' (decimal cas ++ line_end) h h (unfold is_digit in refl)).0

last_cas : (cas : Option ℕ) → cas_value cas < 2 ^ 64 → last_number 64 (cas_part cas) ≡ cas_value cas
last_cas none h = unfold last_number skip_space is_space in refl
last_cas (some cas) h = (read_number-decimal 64 cas 13 (10 ∷ []) h h (unfold is_digit in refl)).1

first_word :
    (rest : Bytes) → read_word (codes "VALUE" ++ b' ' ∷ rest) ≡ some (codes "VALUE", b' ' ∷ rest)
unfolding read_word codes span skip_space is_space
first_word rest = refl

-- The line of a value under a key of octets that may be sent, and not empty, with 32 bits of flags, a
-- `cas` of 64 bits and a size that leaves room for 7 more, announces its flags, its `cas` where it is there
-- and zero otherwise, and a body that is the seven octets of the footer longer than the value.
pub deserialize_retrieve-value_line :
    (zlib : ZlibLibrary) (c : ℕ) (key : Bytes) (flags bytes : ℕ) (cas : Option ℕ)
    → All IsKeyOctet (c ∷ key)
    → flags < 2 ^ 32
    → bytes + 7 < 2 ^ 64
    → cas_value cas < 2 ^ 64
    → deserialize_retrieve zlib (value_line (c ∷ key) flags bytes cas)
      ≡ retrieval_found flags (bytes + 7) (cas_value cas) (set_retrieved_body zlib)
unfolding deserialize_retrieve deserialize_value codes starts_with
deserialize_retrieve-value_line zlib c key flags bytes cas k f b u =
    let header = value_line (c ∷ key) flags bytes cas in
    let behind_flags = b' ' ∷ (decimal bytes ++ cas_part cas) in
    let wrapped : (bytes + 7) % 2 ^ 64 ≡ bytes + 7 = omega arith in
    let second = read_word-space c key (decimal flags ++ behind_flags) (key_octets (c ∷ key) k) in
    let third =
      (read_number-decimal 32 flags b' ' (decimal bytes ++ cas_part cas) f (omega arith)
        (unfold is_digit in refl)).0 in
    let fourth = read_bytes bytes cas (omega arith) in
    let last = last_cas cas u in
    rw
      (
        first_word (c ∷ key ++ b' ' ∷ (decimal flags ++ behind_flags)),
        second,
        third,
        fourth,
        last,
        wrapped,
      )
      refl

-- Of the body, the value with its footer, the client gets the value, where its flags ask for no
-- decompression and the size of both is below 2 ^ 64.
pub set_retrieved_body-footer :
    (zlib : ZlibLibrary) (flags : ℕ) (old value : Bytes)
    → is_compressed flags ≡ false
    → length value + 7 < 2 ^ 64
    → set_retrieved_body zlib flags old (value ++ footer) ≡ returns (flags, value)
unfolding set_retrieved_body
set_retrieved_body-footer zlib flags old value plain small =
    let whole : length (value ++ footer) ≡ length value + 7 = length-append value footer in
    let size : (length value + 7 + (2 ^ 64 - 7)) % 2 ^ 64 ≡ length value = omega arith in
    let long : ltb (length value + 7) (length value) ≡ false =
      le→not_ltb (length value + 7) (length value) (omega arith) in
    rw (whole, plain, size, long)
      (ap (λ v. returns (flags, v)) (take_seam (length value) value footer refl))
