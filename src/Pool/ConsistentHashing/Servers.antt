-- ===== src/Pool/ConsistentHashing/Servers.antt =====
-- What the constructor puts into the ring: sorted entries, each with the index of a server.
use mcache_client.Prelude.{
  ℕ, zero, suc, ◌+◌, ◌%◌, ◌^◌, ◌≤◌, ◌<◌, ◌≡◌, subst, List, [], ◌∷◌, arith, length, All, Bytes,
}
use mcache_client.Error.{returns, returns_injective}
use mcache_client.Pool.Ring.{Ring, insert}
use mcache_client.Pool.Ring.Order.{
  Ascending, insert-Ascending, insert-All, length-insert, insert_nonempty,
}
use mcache_client.Pool.ConsistentHashing.{Config, add_virtual_nodes, add_servers, make_pool}

-- A ring that the constructor may build for `n` servers.
pub record IsRing (n : ℕ) (r : Ring) : Type 0 where
  pub ascending : Ascending 0 r
  pub indexed : All (λ e. e.index < n) r

module _ (hashf : Bytes → ℕ → ℕ) where
  add_virtual_nodes-IsRing :
      (k : ℕ) (addr : Bytes) (hash idx n : ℕ) (r : Ring)
      → idx < n
      → IsRing n r
      → IsRing n (add_virtual_nodes hashf k addr hash idx r)
  unfolding add_virtual_nodes
  add_virtual_nodes-IsRing zero addr hash idx n r b v = v
  add_virtual_nodes-IsRing (suc k) addr hash idx n r b v =
      add_virtual_nodes-IsRing k addr (hashf addr hash) idx n _ b (record {
        ascending = insert-Ascending 0 (hashf addr hash) idx r (omega arith) v.ascending;
        indexed = insert-All (λ i. i < n) (hashf addr hash) idx r b v.indexed;
      })

  add_servers-IsRing :
      (cfg : Config) (addrs : List Bytes) (i n : ℕ) (r : Ring)
      → i + length addrs ≤ n
      → IsRing n r
      → IsRing n (add_servers hashf cfg addrs i r)
  unfolding add_servers
  add_servers-IsRing cfg [] i n r b v = v
  add_servers-IsRing cfg (addr ∷ rest) i n r b v =
      add_servers-IsRing cfg rest (suc i) n _ (omega arith)
        (add_virtual_nodes-IsRing cfg.virtual_nodes addr 0 (i % 2 ^ 32) n r (omega arith) v)

  -- Every pool that the constructor returns has its entries in strictly ascending order of hash, and
  -- each of them names one of the servers, so that the client's `proxies[*iidx]` is in range.
  pub make_pool-IsRing :
      (cfg : Config) (addrs : List Bytes) (r : Ring)
      → make_pool hashf cfg addrs ≡ returns r
      → IsRing (length addrs) r
  unfolding make_pool
  make_pool-IsRing cfg [] r e = cc
  make_pool-IsRing cfg (addr ∷ rest) r e =
      subst (IsRing (length (addr ∷ rest))) (returns_injective e) (
        add_servers-IsRing cfg (addr ∷ rest) 0 (length (addr ∷ rest)) [] (omega arith)
          (record { ascending = tt; indexed = tt }))

  add_virtual_nodes_grows :
      (k : ℕ) (addr : Bytes) (hash idx : ℕ) (r : Ring)
      → length r ≤ length (add_virtual_nodes hashf k addr hash idx r)
  unfolding add_virtual_nodes
  add_virtual_nodes_grows zero addr hash idx r = omega arith
  add_virtual_nodes_grows (suc k) addr hash idx r = omega (
    arith,
    length-insert (hashf addr hash) idx r,
    add_virtual_nodes_grows k addr (hashf addr hash) idx (insert (hashf addr hash) idx r),
  )

  add_servers_grows :
      (cfg : Config) (addrs : List Bytes) (i : ℕ) (r : Ring)
      → length r ≤ length (add_servers hashf cfg addrs i r)
  unfolding add_servers
  add_servers_grows cfg [] i r = omega arith
  add_servers_grows cfg (addr ∷ rest) i r = omega (
    arith,
    add_virtual_nodes_grows cfg.virtual_nodes addr 0 (i % 2 ^ 32) r,
    add_servers_grows cfg rest (suc i)
        (add_virtual_nodes hashf cfg.virtual_nodes addr 0 (i % 2 ^ 32) r),
  )

  add_virtual_nodes_nonempty :
      (k : ℕ) (addr : Bytes) (hash idx : ℕ) (r : Ring)
      → 0 < k
      → 0 < length (add_virtual_nodes hashf k addr hash idx r)
  unfolding add_virtual_nodes
  add_virtual_nodes_nonempty zero addr hash idx r h = elim h [ ]
  add_virtual_nodes_nonempty (suc k) addr hash idx r h = omega (
    arith,
    insert_nonempty (hashf addr hash) idx r,
    add_virtual_nodes_grows k addr (hashf addr hash) idx (insert (hashf addr hash) idx r),
  )

  -- With at least one virtual node for each server the ring of a constructed pool has an entry.
  pub make_pool_nonempty :
      (cfg : Config) (addrs : List Bytes) (r : Ring)
      → 0 < cfg.virtual_nodes
      → make_pool hashf cfg addrs ≡ returns r
      → 0 < length r
  unfolding make_pool add_servers
  make_pool_nonempty cfg [] r h e = cc
  make_pool_nonempty cfg (addr ∷ rest) r h e =
      subst (λ q. 0 < length q) (returns_injective e)
        (omega (
          arith,
          add_virtual_nodes_nonempty cfg.virtual_nodes addr 0 (0 % 2 ^ 32) [] h,
          add_servers_grows cfg rest 1
              (add_virtual_nodes hashf cfg.virtual_nodes addr 0 (0 % 2 ^ 32) []),
        ))
