-- ===== src/Pool/ConsistentHashing/Walk.antt =====
-- What a loop over the pool's iterator sees, whatever its start.
use mcache_client.Prelude.{
  ℕ, zero, suc, ◌+◌, ◌-◌, ◌*◌, ◌≤◌, ◌<◌, ◌≡◌, refl, ◌∙◌, inl, inr, Bool, true, false, List, [], ◌∷◌,
  ◌++◌, map, some, arith, ◌==◌, if◌then◌else◌, Bool-cases, ==_iff, length, drop, get_elem?,
  get_elem?_of_lt, drop_get_elem, drop_all, Bytes,
}
use mcache_client.Pool.Ring.{Node, Ring, lower_bound}
use mcache_client.Pool.Ring.Order.{lower_bound-le-length}
use mcache_client.Pool.ConsistentHashing.{
  make_iterator, end_iterator, equal, dereference, increment, traverse, choose, begin,
}

abbrev pub indices : List Node → List ℕ
indices = map (λ n. n.index)

module _ (r : Ring) (p : ℕ) where
  traverse_step :
      (fuel : ℕ) (stop : Bool) (n : Node)
      → p < length r
      → get_elem? r p ≡ some n
      → traverse (suc fuel) r (record { inode = p; stop = stop })
        ≡ n.index ∷ traverse fuel r (increment r (record { inode = p; stop = stop }))
  unfolding traverse equal end_iterator dereference
  traverse_step fuel stop n b e = ground arith

  traverse_end :
      (fuel : ℕ) (stop : Bool)
      → p ≡ length r
      → traverse (suc fuel) r (record { inode = p; stop = stop }) ≡ []
  unfolding traverse equal end_iterator
  traverse_end fuel stop b = ground arith

  increment_stopped :
      increment r (record { inode = p; stop = true }) ≡ record { inode = suc p; stop = true }
  unfolding increment
  increment_stopped = ground arith

  increment_inside :
      suc p < length r
      → increment r (record { inode = p; stop = false }) ≡ record { inode = suc p; stop = false }
  unfolding increment
  increment_inside h = ground arith

  increment_wraps :
      suc p ≡ length r
      → increment r (record { inode = p; stop = false }) ≡ record { inode = 0; stop = true }
  unfolding increment
  increment_wraps h = ground arith

drop_end : (p : ℕ) (r : Ring) → p ≡ length r → drop p r ≡ []
drop_end p r e = rw e (drop_all r)

-- Behind the wrap the loop runs to the end of the ring.
traverse_stopped :
    (fuel p : ℕ) (r : Ring)
    → p ≤ length r
    → length r - p < fuel
    → traverse fuel r (record { inode = p; stop = true }) ≡ indices (drop p r)
traverse_stopped zero p r b f = absurd (omega arith)
traverse_stopped (suc fuel) p r b f = elim (Bool-cases (p == length r)) [
  | inl done ↦
      let e : p ≡ length r = (==_iff _ _).0 done in
      traverse_end r p fuel true e ∙ rw e (rw (drop_all r))
  | inr more ↦
      let inside : p < length r = ground arith in
      let (n, e) = get_elem?_of_lt r p inside in
      traverse_step r p fuel true n inside e
      ∙ rw (
        increment_stopped r p,
        drop_get_elem r p n e,
        traverse_stopped fuel (suc p) r inside (omega arith),
      )
]

-- Before the wrap the rest of the ring comes first, and then the whole ring.
traverse_fresh :
    (fuel p : ℕ) (r : Ring)
    → p < length r
    → length r - p + length r < fuel
    → traverse fuel r (record { inode = p; stop = false }) ≡ indices (drop p r) ++ indices r
traverse_fresh zero p r b f = absurd (omega arith)
traverse_fresh (suc fuel) p r b f =
    let (n, e) = get_elem?_of_lt r p b in
    traverse_step r p fuel false n b e ∙ elim (Bool-cases (suc p == length r)) [
      | inl last ↦
          let e' : suc p ≡ length r = (==_iff _ _).0 last in
          rw (
            increment_wraps r p e',
            drop_get_elem r p n e,
            drop_end (suc p) r e',
            traverse_stopped fuel 0 r (omega arith) (omega arith),
          )
      | inr more ↦ rw (
        increment_inside r p (ground arith),
        drop_get_elem r p n e,
        traverse_fresh fuel (suc p) r (ground arith) (omega arith),
      )
    ]

-- An empty ring is over before it begins.
traverse_empty : (fuel p : ℕ) → p ≡ 0 → traverse fuel [] (make_iterator [] p) ≡ []
unfolding traverse equal end_iterator make_iterator dereference
traverse_empty zero p e = refl
traverse_empty (suc fuel) p e = ground arith

drop_nothing : (p : ℕ) → drop {A = Node} p [] ≡ []
drop_nothing zero = refl
drop_nothing (suc p) = refl

-- Where the walk from a position starts: at the beginning, if the position is the end.
abbrev pub wrapped : Ring → ℕ → ℕ
wrapped r p = if p == length r then 0 else p

traverse-make_iterator :
    (fuel p : ℕ) (r : Ring)
    → p ≤ length r
    → 2 * length r < fuel
    → traverse fuel r (make_iterator r p) ≡ indices (drop (wrapped r p) r) ++ indices r
traverse-make_iterator fuel p [] b f =
    traverse_empty fuel p (omega arith) ∙ rw (drop_nothing (wrapped [] p))
traverse-make_iterator fuel p (n ∷ r) b f =
    unfold make_iterator in
    traverse_fresh fuel (wrapped (n ∷ r) p) (n ∷ r) (ground arith) (ground arith)

module _ (hashf : Bytes → ℕ → ℕ) where
  -- With twice the ring's size and one more for fuel, the loop that starts at `choose` ends by its
  -- test, and sees the servers from the key's position to the end of the ring, and then those of
  -- the whole ring from its beginning.
  pub traverse-choose :
      (r : Ring) (key : Bytes) (fuel : ℕ)
      → 2 * length r < fuel
      → traverse fuel r (choose hashf r key)
        ≡ indices (drop (wrapped r (lower_bound (hashf key 0) r)) r) ++ indices r
  unfolding choose
  traverse-choose r key fuel f =
      traverse-make_iterator fuel (lower_bound (hashf key 0) r) r
        (lower_bound-le-length (hashf key 0) r) f

wrapped_zero : (r : Ring) → wrapped r 0 ≡ 0
wrapped_zero r = ground arith

-- A loop from `begin` to `end` sees each entry of the ring twice.
pub traverse-begin :
    (r : Ring) (fuel : ℕ) → 2 * length r < fuel → traverse fuel r (begin r) ≡ indices r ++ indices r
unfolding begin
traverse-begin r fuel f = traverse-make_iterator fuel 0 r (omega arith) f ∙ rw (wrapped_zero r)
