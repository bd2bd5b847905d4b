-- ===== src/Proto/Txt/Streams.antt =====
-- What src/proto/txt.cc uses of `std::istringstream`: words and unsigned numbers, in the "C" locale.
use mcache_client.Prelude.{
  ℕ, ◌+◌, ◌-◌, ◌^◌, ◌<◌, ◌≡◌, refl, sym, ◌∙◌, ap, Bool, true, false, inl, inr, [], ◌∷◌, ◌++◌,
  Option, none, some, ◌&&◌, ◌==◌, leb, ltb, if◌then◌else◌, Bool-cases, Bytes, All, IsDigit, decimal,
  from_digits, from_digits-decimal, decimal-All, digits, subst, ◌/◌, ◌%◌, arith, lt→ltb,
}
use mcache_client.Proto.Key.{is_space}

-- The octets in front of the first that fails a test, and the rest.
unfoldable pub span : (ℕ → Bool) → Bytes → Bytes × Bytes
span test [] = ([], [])
span test (c ∷ s) =
    let later = span test s in if test c then (c ∷ later.0, later.1) else ([], c ∷ s)

unfoldable pub skip_space : Bytes → Bytes
skip_space [] = []
skip_space (c ∷ s) = let rest = skip_space s in if is_space c then rest else c ∷ s

abbrev is_graph : ℕ → Bool
is_graph c = if is_space c then false else true

unfoldable pub is_digit : ℕ → Bool
is_digit c = leb b'0' c && leb c b'9'

abbrev read_any : Bytes × Bytes → Option (Bytes × Bytes)
read_any ([], rest) = none
read_any (c ∷ word, rest) = some (c ∷ word, rest)

-- `is >> string`.
unfoldable pub read_word : Bytes → Option (Bytes × Bytes)
unfolding span skip_space
read_word s = read_any (span is_graph (skip_space s))

abbrev signed : ℕ → Bool → ℕ → ℕ
signed width negative n = if negative then (if n == 0 then 0 else 2 ^ width - n) else n

abbrev in_range : ℕ → Bool → Option (Bytes × Bytes) → Option (ℕ × Bytes)
in_range width negative none = none
in_range width negative (some (word, rest)) =
    let n = from_digits 0 word in
    if ltb n (2 ^ width) then some (signed width negative n, rest) else none

abbrev clamped : ℕ → Bool → Option (Bytes × Bytes) → ℕ
clamped width negative none = 0
clamped width negative (some (word, rest)) =
    let n = from_digits 0 word in
    if ltb n (2 ^ width) then signed width negative n else 2 ^ width - 1

-- A sign may stand in front; the negative of a number is taken modulo the width.
abbrev behind_sign : {A : Type 0} → A → (Bool → Bytes → A) → Bytes → A
behind_sign otherwise read [] = otherwise
behind_sign otherwise read (c ∷ s) =
    if c == b'-' then read true s else if c == b'+' then read false s else read false (c ∷ s)

-- `is >> n` for an unsigned type of this width, where it succeeds.
unfoldable pub read_number : ℕ → Bytes → Option (ℕ × Bytes)
unfolding span skip_space
read_number width s =
    behind_sign none (λ negative word. in_range width negative (read_any (span is_digit word)))
      (skip_space s)

-- What `n` is after `is >> n`, where it was zero: the greatest number for one that is too large.
unfoldable pub last_number : ℕ → Bytes → ℕ
unfolding span skip_space
last_number width s =
    behind_sign 0 (λ negative word. clamped width negative (read_any (span is_digit word)))
      (skip_space s)

span-append :
    (test : ℕ → Bool) (w : Bytes) (c : ℕ) (rest : Bytes)
    → All (λ d. test d ≡ true) w
    → test c ≡ false
    → span test (w ++ c ∷ rest) ≡ (w, c ∷ rest)
unfolding span
span-append test [] c rest all end = rw end
span-append test (d ∷ w) c rest (good, all) end = rw (good, span-append test w c rest all end)

is_graph-All : (w : Bytes) → All (λ c. is_space c ≡ false) w → All (λ c. is_graph c ≡ true) w
is_graph-All [] a = tt
is_graph-All (c ∷ w) (h, a) = (rw h refl, is_graph-All w a)

is_digit-All : (w : Bytes) → All IsDigit w → All (λ c. is_digit c ≡ true) w
unfolding is_digit
is_digit-All [] a = tt
is_digit-All (c ∷ w) (h, a) = (ground arith, is_digit-All w a)

skip_space_once : (c : ℕ) (s : Bytes) → is_space c ≡ false → skip_space (b' ' ∷ c ∷ s) ≡ c ∷ s
unfolding skip_space is_space
skip_space_once c s h = rw h

-- A word behind a space is read, up to a space or a line end.
pub read_word_between :
    (c : ℕ) (w : Bytes) (d : ℕ) (rest : Bytes)
    → All (λ e. is_space e ≡ false) (c ∷ w)
    → is_space d ≡ true
    → read_word (b' ' ∷ (c ∷ w ++ d ∷ rest)) ≡ some (c ∷ w, d ∷ rest)
unfolding read_word
read_word_between c w d rest a h =
    ap (λ t. read_any (span is_graph t)) (skip_space_once c (w ++ d ∷ rest) a.0)
    ∙ ap read_any (span-append is_graph (c ∷ w) d rest (is_graph-All (c ∷ w) a) (rw h refl))

pub read_word-space :
    (c : ℕ) (w rest : Bytes)
    → All (λ d. is_space d ≡ false) (c ∷ w)
    → read_word (b' ' ∷ (c ∷ w ++ b' ' ∷ rest)) ≡ some (c ∷ w, b' ' ∷ rest)
read_word-space c w rest a = read_word_between c w b' ' rest a (unfold is_space in refl)

skip_space-graphic : (c : ℕ) (s : Bytes) → is_space c ≡ false → skip_space (c ∷ s) ≡ c ∷ s
unfolding skip_space
skip_space-graphic c s h = rw h

-- So is one at the beginning.
pub read_word_first :
    (c : ℕ) (w rest : Bytes)
    → All (λ d. is_space d ≡ false) (c ∷ w)
    → read_word (c ∷ w ++ b' ' ∷ rest) ≡ some (c ∷ w, b' ' ∷ rest)
unfolding read_word
read_word_first c w rest a =
    ap (λ t. read_any (span is_graph t)) (skip_space-graphic c (w ++ b' ' ∷ rest) a.0)
    ∙ ap read_any
        (span-append is_graph (c ∷ w) b' ' rest (is_graph-All (c ∷ w) a) (unfold is_space in refl))

digit_is_no_space : (c : ℕ) → IsDigit c → is_space c ≡ false
unfolding is_space
digit_is_no_space c h = ground arith

digit_is_no_sign : (c : ℕ) → IsDigit c → ((c == b'-') ≡ false) × ((c == b'+') ≡ false)
digit_is_no_sign c h = (ground arith, ground arith)

behind_sign-digit :
    {A : Type 0} (otherwise : A) (read : Bool → Bytes → A) (c : ℕ) (s : Bytes)
    → IsDigit c
    → behind_sign otherwise read (c ∷ s) ≡ read false (c ∷ s)
behind_sign-digit otherwise read c s h = rw ((digit_is_no_sign c h).0, (digit_is_no_sign c h).1)

span-digits :
    (c d : ℕ) (w rest : Bytes)
    → All IsDigit (c ∷ w)
    → is_digit d ≡ false
    → span is_digit (c ∷ w ++ d ∷ rest) ≡ (c ∷ w, d ∷ rest)
span-digits c d w rest a end = span-append is_digit (c ∷ w) d rest (is_digit-All (c ∷ w) a) end

-- So are digits in front of another octet, where the number fits.
read_number-digits :
    (width c d : ℕ) (w rest : Bytes)
    → All IsDigit (c ∷ w)
    → is_digit d ≡ false
    → from_digits 0 (c ∷ w) < 2 ^ width
    → (read_number width (b' ' ∷ (c ∷ w ++ d ∷ rest)) ≡ some (from_digits 0 (c ∷ w), d ∷ rest))
      × (last_number width (b' ' ∷ (c ∷ w ++ d ∷ rest)) ≡ from_digits 0 (c ∷ w))
unfolding read_number last_number
read_number-digits width c d w rest a end fits =
    let skipped = skip_space_once c (w ++ d ∷ rest) (digit_is_no_space c a.0) in
    let split = span-digits c d w rest a end in
    let small : ltb (from_digits 0 (c ∷ w)) (2 ^ width) ≡ true =
      lt→ltb (from_digits 0 (c ∷ w)) (2 ^ width) fits in
    (
      ap
            (behind_sign none
              (λ negative word. in_range width negative (read_any (span is_digit word))))
            skipped
          ∙ behind_sign-digit none
              (λ negative word. in_range width negative (read_any (span is_digit word))) c
              (w ++ d ∷ rest) a.0
          ∙ ap (λ q. in_range width false (read_any q)) split
          ∙ rw small refl,
      ap (behind_sign 0 (λ negative word. clamped width negative (read_any (span is_digit word))))
            skipped
          ∙ behind_sign-digit 0
              (λ negative word. clamped width negative (read_any (span is_digit word))) c
              (w ++ d ∷ rest) a.0
          ∙ ap (λ q. clamped width false (read_any q)) split
          ∙ rw small refl,
    )

decimal-cons : (n : ℕ) → (c : ℕ) × (w : Bytes) × (decimal n ≡ c ∷ w)
unfolding decimal digits
decimal-cons n = elim (Bool-cases (ltb n 10)) [
  | inl one ↦ (b'0' + n, [], rw one refl)
  | inr more ↦ let (c, w, e) = concat-cons (digits 19 (n / 10)) (b'0' + n % 10) in (c, w, rw more e)
]
  where
    concat-cons : (xs : Bytes) (x : ℕ) → (c : ℕ) × (w : Bytes) × (xs ++ x ∷ [] ≡ c ∷ w)
    concat-cons [] x = (x, [], refl)
    concat-cons (y ∷ ys) x = (y, ys ++ x ∷ [], refl)

-- A number of at most 64 bits in decimal is read back, in front of any octet that is no digit.
pub read_number-decimal :
    (width n d : ℕ) (rest : Bytes)
    → n < 2 ^ width
    → n < 2 ^ 64
    → is_digit d ≡ false
    → (read_number width (b' ' ∷ (decimal n ++ d ∷ rest)) ≡ some (n, d ∷ rest))
      × (last_number width (b' ' ∷ (decimal n ++ d ∷ rest)) ≡ n)
read_number-decimal width n d rest fits narrow end =
    let (c, w, e) = decimal-cons n in
    let value : from_digits 0 (c ∷ w) ≡ n =
      ap (from_digits 0) (sym e) ∙ from_digits-decimal n narrow in
    let all : All IsDigit (c ∷ w) = subst (All IsDigit) e (decimal-All n) in
    let (read, last) =
      read_number-digits width c d w rest all end (subst (λ m. m < 2 ^ width) (sym value) fits) in
    (rw e (read ∙ ap (λ m. some (m, d ∷ rest)) value), rw e (last ∙ value))
