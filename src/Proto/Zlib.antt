-- ===== src/Proto/Zlib.antt =====
-- src/proto/zlib.cc: the value's length in front of what the zlib library makes of it. The library
-- is a parameter: `bound` is `compressBound`, `deflate` and `inflate` are `compress` and `uncompress`,
-- with the room in the buffer as first argument and `none` for any other return than `Z_OK`.
use mcache_client.Prelude.{
  ℕ, ◌+◌, ◌-◌, ◌*◌, ◌%◌, ◌/◌, ◌^◌, ◌<◌, ◌≡◌, refl, ap, inl, inr, [], ◌∷◌, ◌++◌, Option, none, some,
  arith, ltb, if◌then◌else◌, Bool-cases, Option-cases, take, drop, length, Bytes, codes,
}
use mcache_client.Error.{ErrorCode, Exception, mc_error, Result, returns, throws}

pub record ZlibLibrary : Type 0 where
  pub bound : ℕ → ℕ
  pub deflate : ℕ → Bytes → Option Bytes
  pub inflate : ℕ → Bytes → Option Bytes

-- The four octets of a `uint32_t` in memory, on a little-endian machine, and back.
unfoldable pub le32 : ℕ → Bytes
le32 n = n % 256 ∷ n / 256 % 256 ∷ n / 65536 % 256 ∷ n / 16777216 % 256 ∷ []

unfoldable pub from_le32 : Bytes → Option ℕ
from_le32 (a ∷ b ∷ c ∷ d ∷ rest) = some (a + 256 * b + 65536 * c + 16777216 * d)
from_le32 _ = none

abbrev bad_request : Bytes → Exception
bad_request = mc_error ErrorCode.bad_request

abbrev or_throw {ℓ} : {A : Type ℓ} → Option A → Exception → Result A
or_throw none e = throws e
or_throw (some a) e = returns a

module _ (zlib : ZlibLibrary) where
  abbrev deflated : Bytes → Option Bytes → Result Bytes
  deflated input none = throws (bad_request (codes "zlib compress error"))
  deflated input (some out) = returns (le32 (length input % 2 ^ 32) ++ out)

  -- `compress`.
  unfoldable pub compress : Bytes → Result Bytes
  compress input =
      if ltb (2 ^ 32 - 1) (zlib.bound (length input))
      then throws (bad_request (codes "too large data"))
      else deflated input (zlib.deflate (zlib.bound (length input)) input)

  -- `uncompress` of the octets from `index` on, at most `count` of them. Fewer than four octets make
  -- the source read outside the string. A length read from four octets is never too large.
  abbrev inflated : Option ℕ → Bytes → Result Bytes
  inflated none source = throws Exception.fault
  inflated (some size) source =
      or_throw (zlib.inflate size source) (bad_request (codes "zlib uncompress error"))

  unfoldable pub uncompress : Bytes → ℕ → ℕ → Result Bytes
  uncompress input index count =
      let source = take count (drop index input) in inflated (from_le32 source) (drop 4 source)

  le32_inverse : (n : ℕ) (rest : Bytes) → n < 2 ^ 32 → from_le32 (le32 n ++ rest) ≡ some n
  unfolding le32 from_le32
  le32_inverse n rest h = ap some (omega arith)

  drop-le32 : (n : ℕ) (rest : Bytes) → drop 4 (le32 n ++ rest) ≡ rest
  unfolding le32
  drop-le32 n rest = refl

  -- What a caller may rely on of the library: it inflates what it has deflated, in a buffer of the
  -- original size.
  abbrev pub Inflates : Type 0
  Inflates =
      (input out : Bytes)
      → zlib.deflate (zlib.bound (length input)) input ≡ some out
      → zlib.inflate (length input) out ≡ some input

  compress-eq-returns :
      (input packed : Bytes)
      → compress input ≡ returns packed
      → (out : Bytes) × (zlib.deflate (zlib.bound (length input)) input ≡ some out)
        × (packed ≡ le32 (length input % 2 ^ 32) ++ out)
  unfolding compress
  compress-eq-returns input packed e =
      elim (Bool-cases (ltb (2 ^ 32 - 1) (zlib.bound (length input)))) [
        | inl large ↦ absurd (cc (rw (large, compress) at e))
        | inr fits ↦ elim (Option-cases (zlib.deflate (zlib.bound (length input)) input)) [
          | inl failed ↦ absurd (ground arith)
          | inr (out, made) ↦ (out, made, ground arith)
        ]
      ]

  uncompress-le32 :
      (n : ℕ) (input out : Bytes)
      → n < 2 ^ 32
      → zlib.inflate n out ≡ some input
      → inflated (from_le32 (le32 n ++ out)) (drop 4 (le32 n ++ out)) ≡ returns input
  uncompress-le32 n input out h e = rw (le32_inverse n out h, drop-le32 n out, e)

  -- Where the library inflates what it has deflated, a value below 4 GiB that `compress` accepts is what `uncompress` gives back, wherever the
  -- compressed octets stand in a message.
  pub uncompress-compress :
      Inflates
      → (input packed octets : Bytes) (index count : ℕ) → length input < 2 ^ 32
      → compress input ≡ returns packed
      → take count (drop index octets) ≡ packed
      → uncompress octets index count ≡ returns input
  unfolding uncompress
  uncompress-compress inf input packed octets index count h e cut =
      let (out, made, shape) = compress-eq-returns input packed e in
      let small : length input % 2 ^ 32 ≡ length input = omega arith in
      rw (cut, shape, small) (uncompress-le32 (length input) input out h (inf input out made))
