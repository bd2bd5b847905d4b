-- ===== src/Pool/Ring/Order.antt =====
-- The entries of the ring stay in strictly ascending order of hash, and a lookup sees each insertion
-- exactly when the hash was free.
use mcache_client.Prelude.{
  ℕ, suc, ◌≤◌, ◌<◌, ◌≡◌, refl, Bool, [], ◌∷◌, Option, none, some, arith, ◌==◌, if◌then◌else◌, All,
  length,
}
use mcache_client.Pool.Ring.{Ring, insert, find, lower_bound}

-- Every hash is at least `lo`, and each is above those in front of it.
abbrev pub Ascending : ℕ → Ring → Type 0
Ascending lo [] = Unit {0}
Ascending lo (n ∷ r) = (lo ≤ n.hash) × Ascending (suc n.hash) r

pub insert-Ascending :
    (lo h i : ℕ) (r : Ring) → lo ≤ h → Ascending lo r → Ascending lo (insert h i r)
unfolding insert
insert-Ascending lo h i [] b a = (b, tt)
insert-Ascending lo h i (n ∷ r) b a = ground (arith, insert-Ascending (suc n.hash) h i r)

find_below : (lo h : ℕ) (r : Ring) → h < lo → Ascending lo r → find h r ≡ none
unfolding find
find_below lo h [] b a = refl
find_below lo h (n ∷ r) b a = ground (arith, find_below (suc n.hash) h r)

-- What a lookup gives where the key may be new.
abbrev pub or_new : Option ℕ → Bool → ℕ → Option ℕ
or_new (some old) hit i = some old
or_new none hit i = if hit then some i else none

-- `find` after `insert`: the old entry wherever there was one, the new one otherwise.
pub find-insert :
    (lo h i j : ℕ) (r : Ring)
    → Ascending lo r
    → find j (insert h i r) ≡ or_new (find j r) (j == h) i
unfolding find insert
find-insert lo h i j [] a = refl
find-insert lo h i j (n ∷ r) a = ground (
  arith,
  find-insert (suc n.hash) h i j r a.1,
  find_below (suc n.hash) h r,
  find_below (suc n.hash) j r,
)

pub insert-All :
    (P : ℕ → Type 0) (h i : ℕ) (r : Ring)
    → P i
    → All (λ n. P n.index) r
    → All (λ n. P n.index) (insert h i r)
unfolding insert
insert-All P h i [] p a = (p, tt)
insert-All P h i (n ∷ r) p a = ground (arith, insert-All P h i r p a.1)

pub length-insert : (h i : ℕ) (r : Ring) → length r ≤ length (insert h i r)
unfolding insert
length-insert h i [] = omega arith
length-insert h i (n ∷ r) = ground (arith, length-insert h i r)

pub insert_nonempty : (h i : ℕ) (r : Ring) → 0 < length (insert h i r)
unfolding insert
insert_nonempty h i [] = omega arith
insert_nonempty h i (n ∷ r) = ground arith

pub lower_bound-le-length : (h : ℕ) (r : Ring) → lower_bound h r ≤ length r
unfolding lower_bound
lower_bound-le-length h [] = omega arith
lower_bound-le-length h (n ∷ r) = ground (arith, lower_bound-le-length h r)

pub Ascending-All : (lo k : ℕ) (r : Ring) → k ≤ lo → Ascending lo r → All (λ n. k ≤ n.hash) r
Ascending-All lo k [] b a = tt
Ascending-All lo k (n ∷ r) b a = (omega arith, Ascending-All (suc n.hash) k r (omega arith) a.1)
