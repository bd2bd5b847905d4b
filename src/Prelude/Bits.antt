-- ===== src/Prelude/Bits.antt =====
-- The binary `and` and `or` of a number with marks in its upper bits.
use Prim.Native.Nat.{
  ℕ, zero, suc, ◌+◌, ◌*◌, ◌/◌, ◌%◌, ◌^◌, ◌≤◌, ◌<◌, min, max, bit_and, bit_or, digits,
  bit_and-bitwise, bit_or-bitwise,
}
use mathlib.Core.Path.{◌≡◌, refl, ◌∙◌, ap}
use native.Mathlib.Omega.{arith}

-- With digits enough the count of digits does not matter.
digits_enough :
    (z : ℕ → ℕ) (f : ℕ → ℕ → ℕ) (n m a b : ℕ) → a ≤ n → a ≤ m → digits z f n a b ≡ digits z f m a b
digits_enough z f zero zero zero b p q = refl
digits_enough z f zero (suc m) zero b p q = refl
digits_enough z f (suc n) zero zero b p q = refl
digits_enough z f (suc n) (suc m) zero b p q = refl
digits_enough z f zero m (suc a) b p q = absurd (omega arith)
digits_enough z f (suc n) zero (suc a) b p q = absurd (omega arith)
digits_enough z f (suc n) (suc m) (suc a) b p q =
    ap (λ x. x * 2 + f (suc a % 2) (b % 2))
      (digits_enough z f n m (suc a / 2) (b / 2) (omega arith) (omega arith))

-- One digit of each.
and_digit : (a b : ℕ) → bit_and a b ≡ 2 * bit_and (a / 2) (b / 2) + min (a % 2) (b % 2)
and_digit zero b = omega (arith, bit_and-bitwise 0 b, bit_and-bitwise 0 (b / 2))
and_digit (suc a) b = omega (
  arith,
  bit_and-bitwise (suc a) b,
  bit_and-bitwise (suc a / 2) (b / 2),
  digits_enough (λ b. zero) min a (suc a / 2) (suc a / 2) (b / 2) (omega arith) (omega arith),
)

or_digit : (a b : ℕ) → bit_or a b ≡ 2 * bit_or (a / 2) (b / 2) + max (a % 2) (b % 2)
or_digit zero b = omega (arith, bit_or-bitwise 0 b, bit_or-bitwise 0 (b / 2))
or_digit (suc a) b = omega (
  arith,
  bit_or-bitwise (suc a) b,
  bit_or-bitwise (suc a / 2) (b / 2),
  digits_enough (λ b. b) max a (suc a / 2) (suc a / 2) (b / 2) (omega arith) (omega arith),
)

-- `k` digits shifted in, cut off, and those that were cut off.
dbl : ℕ → ℕ → ℕ
dbl zero m = m
dbl (suc k) m = 2 * dbl k m

half : ℕ → ℕ → ℕ
half zero a = a
half (suc k) a = half k (a / 2)

low : ℕ → ℕ → ℕ
low zero a = 0
low (suc k) a = 2 * low k (a / 2) + a % 2

ones : ℕ → ℕ
ones zero = 0
ones (suc k) = 2 * ones k + 1

split : (k a : ℕ) → (a ≡ dbl k (half k a) + low k a) × (low k a < dbl k 1)
unfolding dbl half low
split zero a = (omega arith, omega arith)
split (suc k) a = let (same, small) = split k (a / 2) in (omega arith, omega arith)

and-dbl : (k a m : ℕ) → bit_and a (dbl k m) ≡ dbl k (bit_and (half k a) m)
unfolding dbl half
and-dbl zero a m = refl
and-dbl (suc k) a m =
    let cut : 2 * dbl k m / 2 ≡ dbl k m = omega arith in
    let rest = ap (bit_and (a / 2)) cut ∙ and-dbl k (a / 2) m in
    omega (arith, and_digit a (2 * dbl k m), rest)

or-dbl : (k a m : ℕ) → bit_or a (dbl k m) ≡ dbl k (bit_or (half k a) m) + low k a
unfolding dbl half low
or-dbl zero a m = omega arith
or-dbl (suc k) a m =
    let cut : 2 * dbl k m / 2 ≡ dbl k m = omega arith in
    let rest = ap (bit_or (a / 2)) cut ∙ or-dbl k (a / 2) m in
    omega (arith, or_digit a (2 * dbl k m), rest)

and_zero : (n a : ℕ) → a ≤ n → bit_and a 0 ≡ 0
and_zero n zero h = refl
and_zero zero (suc a) h = absurd (omega arith)
and_zero (suc n) (suc a) h =
    omega (arith, and_digit (suc a) 0, and_zero n (suc a / 2) (omega arith))

and-ones : (k a : ℕ) → bit_and a (ones k) ≡ low k a
unfolding ones low
and-ones zero a = and_zero a a (omega arith)
and-ones (suc k) a =
    let cut : (2 * ones k + 1) / 2 ≡ ones k = omega arith in
    let rest = ap (bit_and (a / 2)) cut ∙ and-ones k (a / 2) in
    omega (arith, and_digit a (2 * ones k + 1), rest)

-- A number of 32 digits with the mark `m` in the upper three.
abbrev pub marked : ℕ → ℕ → ℕ
marked m a = 536870912 * m + a

split_marked : (m a : ℕ) → a < 536870912 → (half 29 (marked m a) ≡ m) × (low 29 (marked m a) ≡ a)
unfolding dbl
split_marked m a small = let (same, below) = split 29 (marked m a) in (omega arith, omega arith)

split_small : (m : ℕ) → m < 8 → low 3 m ≡ m
unfolding dbl
split_small m small = let (same, below) = split 3 m in omega arith

pub bit_and-mask :
    (m a : ℕ) → m < 8 → a < 536870912 → bit_and (marked m a) 0xE000_0000 ≡ 536870912 * m
unfolding dbl ones
bit_and-mask m a small below =
    let three : bit_and (half 29 (marked m a)) 7 ≡ m =
      ap (λ h. bit_and h 7) (split_marked m a below).0 ∙ and-ones 3 m ∙ split_small m small in
    omega (arith, and-dbl 29 (marked m a) 7, three)

pub bit_and-rest : (m a : ℕ) → a < 536870912 → bit_and (marked m a) 0x1FFF_FFFF ≡ a
unfolding ones
bit_and-rest m a below = and-ones 29 (marked m a) ∙ (split_marked m a below).1

pub bit_or-mark : (m a : ℕ) → a < 536870912 → bit_or a (536870912 * m) ≡ marked m a
unfolding dbl
bit_or-mark m a below =
    let (same, under) = split 29 a in
    let high : half 29 a ≡ 0 = omega arith in
    let zero_or : bit_or 0 m ≡ m = bit_or-bitwise 0 m in
    let none' : bit_or (half 29 a) m ≡ m = ap (λ h. bit_or h m) high ∙ zero_or in
    let shift : dbl 29 m ≡ 536870912 * m = omega arith in
    omega (arith, or-dbl 29 a m, none', ap (bit_or a) shift)

-- Without a mark there are at most 29 digits.
pub bit_and-no_mark : (a : ℕ) → a < 2 ^ 32 → bit_and a 0xE000_0000 ≡ 0 → a < 536870912
bit_and-no_mark a small e =
    let m = a / 536870912 in
    let rest = a % 536870912 in
    let same : marked m rest ≡ a = omega arith in
    let masked = bit_and-mask m rest (omega arith) (omega arith) in
    omega (arith, ap (λ x. bit_and x 0xE000_0000) same)

or_zero : (n a : ℕ) → a ≤ n → bit_or a 0 ≡ a
or_zero n zero h = bit_or-bitwise 0 0
or_zero zero (suc a) h = absurd (omega arith)
or_zero (suc n) (suc a) h = omega (arith, or_digit (suc a) 0, or_zero n (suc a / 2) (omega arith))

and_flag : (a : ℕ) → bit_and a 0x0001_0000 ≡ 65536 * (half 16 a % 2)
unfolding dbl ones low
and_flag a = omega (arith, and-dbl 16 a 1, and-ones 1 (half 16 a))

-- A flag at digit 16 that is off is put on, and is seen then.
pub bit_or-flag :
    (a : ℕ)
    → bit_and a 0x0001_0000 ≡ 0
    → (bit_or a 0x0001_0000 ≡ a + 65536) × (bit_and (bit_or a 0x0001_0000) 0x0001_0000 ≡ 65536)
unfolding dbl
bit_or-flag a e =
    let h = half 16 a in
    let even : h % 2 ≡ 0 = omega (arith, and_flag a) in
    let on : bit_or h 1 ≡ h + 1 =
      omega (arith, or_digit h 1, or_zero (h / 2) (h / 2) (omega arith)) in
    let (same, small) = split 16 a in
    let put : bit_or a 0x0001_0000 ≡ a + 65536 = omega (arith, or-dbl 16 a 1) in
    let (same', small') = split 16 (a + 65536) in
    let next : half 16 (a + 65536) ≡ h + 1 = omega arith in
    (put, ap (λ x. bit_and x 0x0001_0000) put ∙ omega (arith, and_flag (a + 65536)))
