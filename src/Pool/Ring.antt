-- ===== src/Pool/Ring.antt =====
-- include/mcache/pool/consistent-hashing.h, `ring_t`: a `std::map` from hash to server index, as the
-- list of its entries in key order.
pub mod Order
pub mod Owner
use mcache_client.Prelude.{
  ℕ, suc, Bool, true, false, List, [], ◌∷◌, Option, none, some, ltb, ◌==◌, if◌then◌else◌,
}

pub record Node : Type 0 where
  pub hash : ℕ
  pub index : ℕ

-- `ring_t`.
abbrev pub Ring : Type 0
Ring = List Node

-- `std::map::insert`: an entry with this hash that is there already is kept.
unfoldable pub insert : ℕ → ℕ → Ring → Ring
insert h i [] = record { hash = h; index = i } ∷ []
insert h i (n ∷ r) =
    if ltb h n.hash
    then record { hash = h; index = i } ∷ n ∷ r
    else if h == n.hash
    then n ∷ r
    else n ∷ insert h i r

-- `std::map::find`.
unfoldable pub find : ℕ → Ring → Option ℕ
find h [] = none
find h (n ∷ r) = if h == n.hash then some n.index else find h r

-- `std::map::lower_bound`, as the number of entries in front of the position that it returns.
unfoldable pub lower_bound : ℕ → Ring → ℕ
lower_bound h [] = 0
lower_bound h (n ∷ r) = if ltb n.hash h then suc (lower_bound h r) else 0
