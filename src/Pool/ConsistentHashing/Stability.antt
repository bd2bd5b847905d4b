-- ===== src/Pool/ConsistentHashing/Stability.antt =====
-- Which server a key goes to, and what a new server changes.
use native.Mathlib.Nat.{zero-add}
use mcache_client.Prelude.{
  ℕ, zero, suc, ◌+◌, ◌%◌, ◌^◌, ◌≤◌, ◌≡◌, refl, ◌∙◌, ap, ◌⊎◌, inl, inr, List, [], ◌∷◌, ◌++◌, Option,
  some, arith, ◌==◌, Bool-cases, Option-cases, ==_iff, get_elem?-length, length, All, get_elem?,
  Bytes,
}
use mcache_client.Error.{returns, returns_injective}
use mcache_client.Pool.Ring.{Node, Ring, insert, lower_bound}
use mcache_client.Pool.Ring.Owner.{
  owner, owner-insert, first_at_or_above, first_at_or_above-least, first, get_elem?-lower_bound,
  lower_bound_end,
}
use mcache_client.Pool.ConsistentHashing.Servers.{IsRing}
use mcache_client.Pool.ConsistentHashing.{
  Config, index_of, dereference, make_iterator, choose, add_virtual_nodes, add_servers, make_pool,
}

get_elem?-first : (r : Ring) → get_elem? r 0 ≡ first r
get_elem?-first [] = refl
get_elem?-first (n ∷ r) = refl

dereference-wraps :
    (p : ℕ) (r : Ring) → p ≡ length r → dereference r (make_iterator r p) ≡ index_of (first r)
unfolding dereference make_iterator
dereference-wraps p r e = ground (arith, get_elem?-first r)

dereference-inside :
    (p : ℕ) (r : Ring) (n : Node)
    → get_elem? r p ≡ some n
    → dereference r (make_iterator r p) ≡ some n.index
unfolding dereference make_iterator
dereference-inside p r n e = elim (Bool-cases (p == length r)) [
  | inl last ↦ cc (get_elem?-length r, rw ((==_iff _ _).0 last) at e)
  | inr more ↦ rw (more, e)
]

dereference-make_iterator :
    (h : ℕ) (r : Ring) → dereference r (make_iterator r (lower_bound h r)) ≡ index_of (owner h r)
unfolding owner
dereference-make_iterator h r = elim (Option-cases (first_at_or_above h r)) [
  | inl e ↦ dereference-wraps (lower_bound h r) r (lower_bound_end h r e) ∙ rw (e, owner)
  | inr (n, e) ↦
      dereference-inside (lower_bound h r) r n (get_elem?-lower_bound h r ∙ e) ∙ rw (e, owner)
]

-- The index is the old one or the new server's.
abbrev Keeps : ℕ → Option Node → Option Node → Type 0
Keeps idx old now = (index_of now ≡ index_of old) ⊎ (index_of now ≡ some idx)

module _ (hashf : Bytes → ℕ → ℕ) where
  add_virtual_nodes-Keeps :
      (k : ℕ) (addr : Bytes) (hash idx h : ℕ) (r : Ring)
      → Keeps idx (owner h r) (owner h (add_virtual_nodes hashf k addr hash idx r))
  unfolding add_virtual_nodes
  add_virtual_nodes-Keeps zero addr hash idx h r = inl refl
  add_virtual_nodes-Keeps (suc k) addr hash idx h r = ground (
    arith,
    owner-insert h (hashf addr hash) idx r,
    add_virtual_nodes-Keeps k addr (hashf addr hash) idx h (insert (hashf addr hash) idx r),
  )

  add_servers-concat :
      (cfg : Config) (addrs : List Bytes) (addr : Bytes) (i : ℕ) (r : Ring)
      → add_servers hashf cfg (addrs ++ addr ∷ []) i r
        ≡ add_virtual_nodes hashf cfg.virtual_nodes addr 0
            ((i + length addrs) % 2 ^ 32)
            (add_servers hashf cfg addrs i r)
  unfolding add_servers
  add_servers-concat cfg [] addr i r =
      ap (λ (k : ℕ). add_virtual_nodes hashf cfg.virtual_nodes addr 0 (k % 2 ^ 32) r) (omega arith)
  add_servers-concat cfg (a ∷ rest) addr i r =
      add_servers-concat cfg rest addr (suc i) _
      ∙ ap
          (λ (k : ℕ).
            add_virtual_nodes hashf cfg.virtual_nodes addr 0 (k % 2 ^ 32)
              (add_servers hashf cfg (a ∷ rest) i r))
          (omega arith)

  -- The server that a key goes to first.
  abbrev pub server_of : Ring → Bytes → Option ℕ
  server_of r key = dereference r (choose hashf r key)

  server_of-owner : (r : Ring) (key : Bytes) → server_of r key ≡ index_of (owner (hashf key 0) r)
  unfolding choose
  server_of-owner r key = dereference-make_iterator (hashf key 0) r

  add_servers-Keeps :
      (cfg : Config) (addrs : List Bytes) (addr key : Bytes)
      → Keeps
          (length addrs % 2 ^ 32)
          (owner (hashf key 0) (add_servers hashf cfg addrs 0 []))
          (owner (hashf key 0) (add_servers hashf cfg (addrs ++ addr ∷ []) 0 []))
  add_servers-Keeps cfg addrs addr key =
      rw (add_servers-concat cfg addrs addr 0 [], zero-add (length addrs))
        (add_virtual_nodes-Keeps cfg.virtual_nodes addr 0 (length addrs % 2 ^ 32) (hashf key 0)
          (add_servers hashf cfg addrs 0 []))

  -- A new server at the end of the list takes keys over, and moves none between the old servers: each
  -- key goes first to the server that it went to before, or to the new one.
  pub server_of-add_server :
      (cfg : Config) (addrs : List Bytes) (addr key : Bytes) (r r' : Ring)
      → make_pool hashf cfg addrs ≡ returns r
      → make_pool hashf cfg (addrs ++ addr ∷ []) ≡ returns r'
      → (server_of r' key ≡ server_of r key) ⊎ (server_of r' key ≡ some (length addrs % 2 ^ 32))
  unfolding make_pool
  server_of-add_server cfg [] addr key r r' e e' = cc
  server_of-add_server cfg (a ∷ rest) addr key r r' e e' =
      rw
        (
          server_of-owner r key,
          server_of-owner r' key,
          ← returns_injective e,
          ← returns_injective e',
        )
        (add_servers-Keeps cfg (a ∷ rest) addr key)

  -- The key's server is that of the nearest entry at or above the key's hash.
  pub server_of_nearest :
      (n : ℕ) (r : Ring) (key : Bytes) (e : Node)
      → IsRing n r
      → first_at_or_above (hashf key 0) r ≡ some e
      → (server_of r key ≡ some e.index)
        × (hashf key 0 ≤ e.hash)
        × All (λ m. hashf key 0 ≤ m.hash → e.hash ≤ m.hash) r
  unfolding owner
  server_of_nearest n r key e v f =
      let least = first_at_or_above-least 0 (hashf key 0) r e v.ascending f in
      (server_of-owner r key ∙ rw (f, owner), least.0, least.1)
