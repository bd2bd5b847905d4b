-- ===== src/Pool/ConsistentHashing.antt =====
-- include/mcache/pool/consistent-hashing.h: the pool that spreads the servers over a ring of hashes.
-- The hash functor is a parameter: `hashf key seed`.
pub mod Dump
pub mod Servers
pub mod Walk
pub mod Stability
use mcache_client.Prelude.{
  ℕ, zero, suc, ◌%◌, ◌^◌, Bool, true, false, List, [], ◌∷◌, Option, none, some, ltb, ◌==◌,
  if◌then◌else◌, length, get_elem?, Bytes,
}
use mcache_client.Error.{Result, returns, throws, out_of_range}
use mcache_client.Pool.Ring.{Node, Ring, insert, lower_bound}

-- `consistent_hashing_pool_config_t`.
pub record Config : Type 0 where
  pub virtual_nodes : ℕ

abbrev pub default_config : Config
default_config = record { virtual_nodes = 200 }

-- `consistent_hashing_pool_const_iterator`: `inode` is a position in the ring, `snode` is position 0
-- and `enode` the ring's size.
pub record Iterator : Type 0 where
  pub inode : ℕ
  pub stop : Bool

-- The constructor with three positions.
unfoldable pub make_iterator : Ring → ℕ → Iterator
make_iterator r inode = record { inode = if inode == length r then 0 else inode; stop = false }

-- The constructor with the end alone.
unfoldable pub end_iterator : Ring → Iterator
end_iterator r = record { inode = length r; stop = true }

-- `equal`: positions only.
unfoldable pub equal : Iterator → Iterator → Bool
equal a b = a.inode == b.inode

abbrev pub index_of : Option Node → Option ℕ
index_of none = none
index_of (some n) = some n.index

-- `dereference`: there is nothing to read at the end.
unfoldable pub dereference : Ring → Iterator → Option ℕ
dereference r it = index_of (get_elem? r it.inode)

-- `increment`: at the end of the ring go on at its beginning, once.
unfoldable pub increment : Ring → Iterator → Iterator
increment r it =
    if suc it.inode == length r
    then if it.stop then record it { inode = suc it.inode } else record { inode = 0; stop = true }
    else record it { inode = suc it.inode }

module _ (hashf : Bytes → ℕ → ℕ) where
  -- The inner loop of the constructor, over the virtual nodes that are left.
  unfoldable pub add_virtual_nodes : ℕ → Bytes → ℕ → ℕ → Ring → Ring
  add_virtual_nodes zero addr hash idx r = r
  add_virtual_nodes (suc n) addr hash idx r =
      add_virtual_nodes n addr (hashf addr hash) idx (insert (hashf addr hash) idx r)

  -- The outer loop: server by server, each under its place in the list of addresses.
  unfoldable pub add_servers : Config → List Bytes → ℕ → Ring → Ring
  add_servers cfg [] i r = r
  add_servers cfg (addr ∷ rest) i r =
      add_servers cfg rest (suc i) (add_virtual_nodes cfg.virtual_nodes addr 0 (i % 2 ^ 32) r)

  -- The constructor.
  unfoldable pub make_pool : Config → List Bytes → Result Ring
  make_pool cfg [] = throws out_of_range
  make_pool cfg (addr ∷ rest) = returns (add_servers cfg (addr ∷ rest) 0 [])

  -- `choose`.
  unfoldable pub choose : Ring → Bytes → Iterator
  choose r key = make_iterator r (lower_bound (hashf key 0) r)

-- `begin` and `end`.
unfoldable pub begin : Ring → Iterator
begin r = make_iterator r 0

abbrev visit : Option ℕ → List ℕ → List ℕ
visit none seen = seen
visit (some i) seen = i ∷ seen

-- The indices that a loop `for (; it != end(); ++it)` sees, up to `fuel` of them.
unfoldable pub traverse : ℕ → Ring → Iterator → List ℕ
traverse zero r it = []
traverse (suc fuel) r it =
    let rest = traverse fuel r (increment r it) in
    if equal it (end_iterator r) then [] else visit (dereference r it) rest
