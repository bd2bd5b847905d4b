-- ===== src/Pool/Modulo.antt =====
-- include/mcache/pool/mod.h: the pool that takes a key's hash modulo the number of servers and tries
-- no other server. The hash functor is a parameter: `hashf key seed`.
use mcache_client.Prelude.{
  ℕ, zero, suc, ◌%◌, ◌^◌, ◌<◌, ◌≡◌, refl, Bool, true, false, List, [], ◌∷◌, arith, ◌&&◌, ◌==◌,
  if◌then◌else◌, length, Bytes,
}
use mcache_client.Error.{Result, returns, throws, out_of_range, returns_injective}

-- `mod_pool_const_iterator`.
pub record Iterator : Type 0 where
  pub value : ℕ
  pub stop : Bool

abbrev pub at : ℕ → Iterator
at v = record { value = v; stop = false }

abbrev pub stopped : Iterator
stopped = record { value = 0; stop = true }

-- `equal`. The test is not symmetric: only the argument's sentinel is looked at by itself.
unfoldable pub equal : Iterator → Iterator → Bool
equal a b = if a.stop && b.stop then true else if b.stop then false else a.value == b.value

unfoldable pub increment : Iterator → Iterator
increment it = record it { stop = true }

-- The constructor: the number of servers, as a `uint32_t`.
unfoldable pub make_pool : List Bytes → Result ℕ
make_pool [] = throws out_of_range
make_pool (addr ∷ rest) = returns (length (addr ∷ rest) % 2 ^ 32)

unfoldable pub begin : Iterator
begin = at 0

unfoldable pub end : Iterator
end = stopped

-- The indices that a loop `for (; it != end(); ++it)` sees, up to `fuel` of them.
unfoldable pub traverse : ℕ → Iterator → List ℕ
unfolding end
traverse zero it = []
traverse (suc fuel) it =
    let rest = traverse fuel (increment it) in if equal it end then [] else it.value ∷ rest

module _ (hashf : Bytes → ℕ → ℕ) where
  unfoldable pub choose : ℕ → Bytes → Iterator
  choose max key = at (hashf key 0 % max)

  -- For fewer than 2 ^ 32 servers the loop that starts at a key's place sees one server, which is one
  -- of the list, and then ends.
  pub traverse-choose_once :
      (addrs : List Bytes) (max fuel : ℕ) (key : Bytes)
      → make_pool addrs ≡ returns max
      → length addrs < 2 ^ 32
      → 1 < fuel
      → (i : ℕ) × (i < length addrs) × (traverse fuel (choose max key) ≡ i ∷ [])
  unfolding traverse choose make_pool equal increment
  traverse-choose_once [] max fuel key e b f = cc
  traverse-choose_once (addr ∷ rest) max zero key e b f = absurd (omega arith)
  traverse-choose_once (addr ∷ rest) max (suc zero) key e b f = absurd (omega arith)
  traverse-choose_once (addr ∷ rest) max (suc (suc fuel)) key e b f =
      (hashf key 0 % max, omega (arith, returns_injective e), refl)
