-- ===== src/Pool/Ring/Owner.antt =====
-- The entry that owns a hash: the first at or above it, or else the first of the ring.
use mcache_client.Prelude.{
  ℕ, suc, ◌≤◌, ◌<◌, ◌≡◌, refl, subst, ◌⊎◌, inl, inr, [], ◌∷◌, Option, none, some, arith, ltb,
  if◌then◌else◌, Bool-cases, tests, All, get_elem?, length,
}
use mcache_client.Pool.Ring.{Node, Ring, insert, lower_bound}
use mcache_client.Pool.Ring.Order.{Ascending, Ascending-All}

unfoldable pub first_at_or_above : ℕ → Ring → Option Node
first_at_or_above h [] = none
first_at_or_above h (n ∷ r) = if ltb n.hash h then first_at_or_above h r else some n

abbrev pub first : Ring → Option Node
first [] = none
first (n ∷ r) = some n

abbrev or_else : Option Node → Option Node → Option Node
or_else (some n) other = some n
or_else none other = other

-- The ring closes: behind the last entry comes the first.
unfoldable pub owner : ℕ → Ring → Option Node
owner h r = or_else (first_at_or_above h r) (first r)

abbrev Same : Node → Option Node → Option Node → Type 0
Same new old now = (now ≡ old) ⊎ (now ≡ some new)

first_at_or_above-insert :
    (h k i : ℕ) (r : Ring)
    → Same
        (record { hash = k; index = i })
        (first_at_or_above h r)
        (first_at_or_above h (insert k i r))
unfolding first_at_or_above insert
first_at_or_above-insert h k i [] = ground arith
first_at_or_above-insert h k i (n ∷ r) = ground (arith, first_at_or_above-insert h k i r)

first-insert :
    (k i : ℕ) (r : Ring) → Same (record { hash = k; index = i }) (first r) (first (insert k i r))
unfolding insert
first-insert k i [] = inr refl
first-insert k i (n ∷ r) = ground arith

-- An insertion leaves the owner of a hash alone, or makes the new entry the owner.
pub owner-insert :
    (h k i : ℕ) (r : Ring)
    → Same (record { hash = k; index = i }) (owner h r) (owner h (insert k i r))
unfolding owner
owner-insert h k i r = ground (arith, first_at_or_above-insert h k i r, first-insert k i r)

All-weaken : (h k : ℕ) (r : Ring) → All (λ m. k ≤ m.hash) r → All (λ m. h ≤ m.hash → k ≤ m.hash) r
All-weaken h k [] a = tt
All-weaken h k (m ∷ r) a = (λ _. a.0, All-weaken h k r a.1)

-- An owner at or above the hash is the nearest: no entry lies between the two.
pub first_at_or_above-least :
    (lo h : ℕ) (r : Ring) (n : Node)
    → Ascending lo r
    → first_at_or_above h r ≡ some n
    → (h ≤ n.hash) × All (λ m. h ≤ m.hash → n.hash ≤ m.hash) r
unfolding first_at_or_above
first_at_or_above-least lo h [] n a e = cc
first_at_or_above-least lo h (m ∷ r) n a e = elim (Bool-cases (ltb m.hash h)) [
  | inl below ↦
      let rest = first_at_or_above-least (suc m.hash) h r n a.1 (rw below at e) in
      (rest.0, (λ le. absurd (omega tests), rest.1))
  | inr found ↦
      let e' : m ≡ n = ground arith in
      subst (λ k. (h ≤ k.hash) × All (λ q. h ≤ q.hash → k.hash ≤ q.hash) (m ∷ r)) e'
        (
          omega tests,
          (
            (λ _. omega arith),
            All-weaken h m.hash r (Ascending-All (suc m.hash) m.hash r (omega arith) a.1),
          ),
        )
]

-- Where no entry is at or above the hash, all are below it.
pub first_at_or_above-none :
    (h : ℕ) (r : Ring) → first_at_or_above h r ≡ none → All (λ m. m.hash < h) r
unfolding first_at_or_above
first_at_or_above-none h [] e = tt
first_at_or_above-none h (m ∷ r) e = ground (arith, first_at_or_above-none h r)

-- `lower_bound` is the position of that entry, and the end where there is none.
pub get_elem?-lower_bound :
    (h : ℕ) (r : Ring) → get_elem? r (lower_bound h r) ≡ first_at_or_above h r
unfolding lower_bound first_at_or_above
get_elem?-lower_bound h [] = refl
get_elem?-lower_bound h (n ∷ r) = ground (arith, get_elem?-lower_bound h r)

pub lower_bound_end : (h : ℕ) (r : Ring) → first_at_or_above h r ≡ none → lower_bound h r ≡ length r
unfolding lower_bound first_at_or_above
lower_bound_end h [] e = refl
lower_bound_end h (n ∷ r) e = ground (arith, lower_bound_end h r)
