-- ===== src/Io/Search.antt =====
-- `std::search` for a delimiter, as src/io/connection.cc and Boost.Asio use it on what was received.
use mathlib.Core.Option
use mcache_client.Prelude.{
  ℕ, ◌≤◌, ◌≡◌, refl, sym, ◌∙◌, ap, inl, inr, true, false, [], ◌∷◌, ◌++◌, Option, none, some, arith,
  if◌then◌else◌, Bool-cases, Option-cases, Bytes, starts_with, length, drop, drop-append_le,
  drop_seam, All, ◌≢◌,
}

-- The octets in front of the first occurrence of the delimiter and those behind it.
unfoldable pub split_first : Bytes → Bytes → Option (Bytes × Bytes)
split_first delimiter [] = if starts_with [] delimiter then some ([], []) else none
split_first delimiter (c ∷ s) =
    let later = Option.map (λ (q : Bytes × Bytes). (c ∷ q.0, q.1)) (split_first delimiter s) in
    if starts_with (c ∷ s) delimiter then some ([], drop (length delimiter) (c ∷ s)) else later

starts_with-length : (s d : Bytes) → starts_with s d ≡ true → length d ≤ length s
unfolding starts_with
starts_with-length s [] h = omega arith
starts_with-length [] (p ∷ d) h = cc
starts_with-length (c ∷ s) (p ∷ d) h = ground (arith, starts_with-length s d)

-- Octets that come later do not change what a long enough text starts with.
starts_with-append :
    (s rest d : Bytes) → length d ≤ length s → starts_with (s ++ rest) d ≡ starts_with s d
unfolding starts_with
starts_with-append s rest [] h = refl
starts_with-append [] rest (p ∷ d) h = absurd (omega arith)
starts_with-append (c ∷ s) rest (p ∷ d) h = rw (starts_with-append s rest d (omega arith)) refl

starts_with_self : (d rest : Bytes) → starts_with (d ++ rest) d ≡ true
unfolding starts_with
starts_with_self [] rest = refl
starts_with_self (c ∷ d) rest = ground (arith, starts_with_self d rest)

starts_with_ne : (c p : ℕ) (s d : Bytes) → c ≢ p → starts_with (c ∷ s) (p ∷ d) ≡ false
unfolding starts_with
starts_with_ne c p s d ne = ground arith

starts_with-parts : (s d : Bytes) → starts_with s d ≡ true → s ≡ d ++ drop (length d) s
unfolding starts_with
starts_with-parts s [] h = refl
starts_with-parts [] (p ∷ d) h = cc
starts_with-parts (c ∷ s) (p ∷ d) h = ground (arith, starts_with-parts s d)

-- The two ways to find it, and to find nothing, one octet at a time.
module _ (d : Bytes) (c : ℕ) (s : Bytes) where
  split_first_here :
      starts_with (c ∷ s) d ≡ true → split_first d (c ∷ s) ≡ some ([], drop (length d) (c ∷ s))
  unfolding split_first
  split_first_here h = rw h

  split_first_later :
      starts_with (c ∷ s) d ≡ false
      → split_first d (c ∷ s) ≡ Option.map (λ (q : Bytes × Bytes). (c ∷ q.0, q.1)) (split_first d s)
  unfolding split_first
  split_first_later h = rw h

abbrev behind : Bytes → Bytes × Bytes → Bytes × Bytes
behind rest (a, b) = (a, b ++ rest)

-- What was found stays where it was found, whatever comes behind.
pub split_first-append :
    (d s rest a b : Bytes)
    → split_first d s ≡ some (a, b)
    → (length d ≤ length s) × (split_first d (s ++ rest) ≡ some (a, b ++ rest))
split_first-append [] [] [] a b e =
    (omega arith, unfold split_first starts_with in ap (Option.map (behind [])) e)
split_first-append [] [] (c ∷ rest) a b e =
    (omega arith, unfold split_first starts_with in ap (Option.map (behind (c ∷ rest))) e)
split_first-append (p ∷ d) [] rest a b e = absurd (unfold split_first starts_with in cc e)
split_first-append d (c ∷ s) rest a b e = elim (Bool-cases (starts_with (c ∷ s) d)) [
  | inl here ↦
      let fits = starts_with-length (c ∷ s) d here in
      let there = starts_with-append (c ∷ s) rest d fits ∙ here in
      let found = sym (split_first_here d c s here) ∙ e in
      (
        fits,
        split_first_here d c (s ++ rest) there
            ∙ ap (λ t. some ([], t)) (drop-append_le (length d) (c ∷ s) rest fits)
            ∙ ap (Option.map (behind rest)) found,
      )
  | inr further ↦ elim (Option-cases (split_first d s)) [
    | inl missed ↦ absurd (cc (rw missed at (sym (split_first_later d c s further) ∙ e)))
    | inr ((a', b'), hit) ↦
        let later = split_first-append d s rest a' b' hit in
        let there = starts_with-append (c ∷ s) rest d (omega (arith, later.0)) ∙ further in
        let same : some (c ∷ a', b') ≡ some (a, b) =
          rw hit at (sym (split_first_later d c s further) ∙ e) in
        (
          omega (arith, later.0),
          split_first_later d c (s ++ rest) there ∙ rw later.1 (ap (Option.map (behind rest)) same),
        )
  ]
]

abbrev joined : Bytes → Option (Bytes × Bytes) → Bytes
joined d none = []
joined d (some (a, b)) = a ++ (d ++ b)

-- The octets in front, the delimiter and those behind are the whole.
pub split_first-parts : (d s a b : Bytes) → split_first d s ≡ some (a, b) → s ≡ a ++ (d ++ b)
split_first-parts [] [] a b e = unfold split_first starts_with in ap (λ o. joined [] o) e
split_first-parts (p ∷ d) [] a b e = absurd (unfold split_first starts_with in cc e)
split_first-parts d (c ∷ s) a b e = elim (Bool-cases (starts_with (c ∷ s) d)) [
  | inl here ↦
      starts_with-parts (c ∷ s) d here
      ∙ ap (λ o. joined d o) (sym (split_first_here d c s here) ∙ e)
  | inr further ↦ elim (Option-cases (split_first d s)) [
    | inl missed ↦ absurd (cc (rw missed at (sym (split_first_later d c s further) ∙ e)))
    | inr ((a', b'), hit) ↦
        ap (◌∷◌ c) (split_first-parts d s a' b' hit)
        ∙ ap (λ o. joined d o) (rw hit at (sym (split_first_later d c s further) ∙ e))
  ]
]

-- Where no octet of a text is the delimiter's first, the delimiter is found behind the text.
pub split_first_behind :
    (p : ℕ) (d s rest : Bytes)
    → All (λ c. c ≢ p) s
    → split_first (p ∷ d) (s ++ (p ∷ d ++ rest)) ≡ some (s, rest)
split_first_behind p d [] rest a =
    split_first_here (p ∷ d) p (d ++ rest) (starts_with_self (p ∷ d) rest)
    ∙ ap (λ t. some ([], t)) (drop_seam (length (p ∷ d)) (p ∷ d) rest refl)
split_first_behind p d (c ∷ s) rest a =
    split_first_later (p ∷ d) c (s ++ (p ∷ d ++ rest))
      (starts_with_ne c p (s ++ (p ∷ d ++ rest)) d a.0)
    ∙ ap (Option.map (λ (q : Bytes × Bytes). (c ∷ q.0, q.1))) (split_first_behind p d s rest a.1)
