-- ===== src/Prelude/Decimal.antt =====
-- Unsigned numbers in decimal, as `std::ostream` prints them and a reader sums them up.
use Prim.Native.Nat.{ℕ, zero, suc, ◌+◌, ◌-◌, ◌*◌, ◌/◌, ◌%◌, ◌^◌, ◌≤◌, ◌<◌}
use mathlib.Core.Path.{◌≡◌, refl, ◌∙◌}
use mathlib.Core.Logic.{inl, inr}
use mathlib.Core.List.{[], ◌∷◌, ◌++◌}
use native.Mathlib.Nat.{pow-suc}
use native.Mathlib.Omega.{arith}
use mcache_client.Prelude.Lists.{All, All-append}
use mcache_client.Prelude.Tests.{ltb, if◌then◌else◌, Bool-cases, ltb→lt}
use mcache_client.Prelude.Words.{Bytes}

-- The digits of a number of at most `fuel` digits.
unfoldable pub digits : ℕ → ℕ → Bytes
digits zero n = []
digits (suc fuel) n =
    let front = digits fuel (n / 10) in
    if ltb n 10 then (b'0' + n) ∷ [] else front ++ (b'0' + n % 10) ∷ []

-- Twenty digits are enough for 64 bits.
unfoldable pub decimal : ℕ → Bytes
unfolding digits
decimal = digits 20

-- The number that digits stand for, behind a number read already.
unfoldable pub from_digits : ℕ → Bytes → ℕ
from_digits acc [] = acc
from_digits acc (c ∷ cs) = from_digits (acc * 10 + (c - b'0')) cs

abbrev pub IsDigit : ℕ → Type 0
IsDigit c = (b'0' ≤ c) × (c ≤ b'9')

from_digits-concat :
    (acc : ℕ) (xs : Bytes) (c : ℕ)
    → from_digits acc (xs ++ c ∷ []) ≡ from_digits acc xs * 10 + (c - b'0')
unfolding from_digits
from_digits-concat acc [] c = refl
from_digits-concat acc (x ∷ xs) c = from_digits-concat (acc * 10 + (x - b'0')) xs c

digits_value : (fuel n : ℕ) → n < 10 ^ fuel → from_digits 0 (digits fuel n) ≡ n
unfolding digits
digits_value zero n h = unfold from_digits in omega arith
digits_value (suc fuel) n h = elim (Bool-cases (ltb n 10)) [
  | inl one ↦ let small : n < 10 = ltb→lt n 10 one in rw one (unfold from_digits in omega arith)
  | inr more ↦
      let tail : n / 10 < 10 ^ fuel = omega (arith, pow-suc 10 fuel) in
      rw more (
        from_digits-concat 0 (digits fuel (n / 10)) (b'0' + n % 10)
        ∙ omega (arith, digits_value fuel (n / 10) tail))
]

digits-All : (fuel n : ℕ) → All IsDigit (digits fuel n)
unfolding digits
digits-All zero n = tt
digits-All (suc fuel) n = elim (Bool-cases (ltb n 10)) [
  | inl one ↦ let small : n < 10 = ltb→lt n 10 one in rw one (omega arith)
  | inr more ↦
      rw more (All-append IsDigit (digits fuel (n / 10)) _ (digits-All fuel (n / 10)) (omega arith))
]

-- A number of 64 bits is the value of its digits, and they are digits.
pub from_digits-decimal : (n : ℕ) → n < 2 ^ 64 → from_digits 0 (decimal n) ≡ n
unfolding decimal
from_digits-decimal n h = digits_value 20 n (omega arith)

pub decimal-All : (n : ℕ) → All IsDigit (decimal n)
unfolding decimal
decimal-All n = digits-All 20 n
