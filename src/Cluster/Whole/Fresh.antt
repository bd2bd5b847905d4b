-- ===== src/Cluster/Whole/Fresh.antt =====
-- A client right behind its constructor: every key has a server, and it is up.
use mcache_client.Prelude.{
  ℕ, zero, suc, ◌+◌, ◌-◌, ◌*◌, ◌^◌, ◌<◌, ◌≡◌, refl, ◌∙◌, subst, Bool, true, false, List, [], ◌∷◌,
  ◌++◌, some, arith, ◌==◌, Bytes, length, drop, All, All-append, All-drop, get_elem?,
}
use mcache_client.Error.{returns, returns_injective, >>=-eq-returns}
use mcache_client.Client as Client
use mcache_client.Client.{Servers}
use mcache_client.Client.Operations.{set, get}
use mcache_client.Cluster.{Node, make_nodes, cluster}
use mcache_client.Cluster.Healthy.{IsUp}
use mcache_client.Cluster.Memcached.{Memcached}
use mcache_client.Cluster.RoundTrip.{Storable, set-get}
use mcache_client.Cluster.Whole.{Whole, ready, new_client, walk}
use mcache_client.Io.Address.{parse_address}
use mcache_client.Io.Tcp.{Peer}
use mcache_client.Pool.Ring.{Ring, lower_bound}
use mcache_client.Pool.ConsistentHashing as ConsistentHashing
use mcache_client.Pool.ConsistentHashing.{make_pool}
use mcache_client.Pool.ConsistentHashing.Servers.{make_pool-IsRing, make_pool_nonempty}
use mcache_client.Pool.ConsistentHashing.Walk.{indices, wrapped, traverse-choose}
use mcache_client.Proto.Options.{Options}
use mcache_client.Proto.Response.{single_body_response, single_retrieval_response}
use mcache_client.Proto.Zlib.{ZlibLibrary, Inflates}
use mcache_client.Proto.Bin.Api.{get_command, set_command}
use mcache_client.Server.Proxy as Proxy

-- An address that the client can take apart.
abbrev pub IsAddress : Bytes → Type 0
IsAddress addr = (dest : Bytes × Bytes) × (parse_address addr ≡ returns dest)

indices-All : (n : ℕ) (r : Ring) → All (λ e. e.index < n) r → All (λ i. i < n) (indices r)
indices-All n [] a = tt
indices-All n (e ∷ r) a = (a.0, indices-All n r a.1)

first_of :
    (n : ℕ) (xs : List ℕ) (r : Ring)
    → All (λ i. i < n) (xs ++ indices r)
    → 0 < length r
    → (i : ℕ) × (rest : List ℕ) × (xs ++ indices r ≡ i ∷ rest) × All (λ i. i < n) (i ∷ rest)
first_of n (i ∷ xs) r a h = (i, xs ++ indices r, refl, a)
first_of n [] (e ∷ r) a h = (e.index, indices r, refl, a)
first_of n [] [] a h = elim h [ ]

pub no_last : (i n : ℕ) → i < n → n < 2 ^ 32 → (i == 2 ^ 32 - 1) ≡ false
no_last i n small few = ground arith

pub ready-returns : {A : Type 0} (b : Bool) (a : A) {c : A} → ready b a ≡ returns c → a ≡ c
ready-returns true a e = returns_injective e
ready-returns false a e = absurd cc

module _ (hashf : Bytes → ℕ → ℕ) where
  -- Every key has a first server, and its walk stays below their number.
  pub walk_first :
      (cfg : ConsistentHashing.Config) (addrs : List Bytes) (r : Ring) (key : Bytes)
      → make_pool hashf cfg addrs ≡ returns r
      → 0 < cfg.virtual_nodes
      → (i : ℕ) × (rest : List ℕ) × (walk hashf r key ≡ i ∷ rest)
        × All (λ j. j < length addrs) (i ∷ rest)
  unfolding walk
  walk_first cfg addrs r key made some_nodes =
      let ring = make_pool-IsRing hashf cfg addrs r made in
      let n = length addrs in
      let p = wrapped r (lower_bound (hashf key 0) r) in
      let seen = traverse-choose hashf r key (2 * length r + 1) (omega arith) in
      let all =
        All-append (λ i. i < n) (indices (drop p r)) (indices r)
          (indices-All n (drop p r) (All-drop (λ e. e.index < n) p r ring.indexed))
          (indices-All n r ring.indexed) in
      let (i, rest, shape, small) =
        first_of n (indices (drop p r)) r all
          (make_pool_nonempty hashf cfg addrs r some_nodes made) in
      (i, rest, seen ∙ shape, small)

module _ {P : Type 0} (max : ℕ) (s : P) where
  abbrev fresh_node : Bytes → Node P max
  fresh_node addr = record {
    addr = addr;
    proxy = record { shared = Proxy.new_shared; connections = [] };
    peer = s;
  }

  make_nodes_at :
      (addrs : List Bytes) (i : ℕ)
      → All IsAddress addrs
      → i < length addrs
      → (addr : Bytes) × IsAddress addr
        × (get_elem? (make_nodes P max s addrs) i ≡ some (fresh_node addr))
  unfolding make_nodes
  make_nodes_at [] i a h = absurd (omega arith)
  make_nodes_at (addr ∷ rest) zero a h = (addr, a.0, refl)
  make_nodes_at (addr ∷ rest) (suc i) a h = make_nodes_at rest i a.1 (omega arith)

module _ {P : Type 0} (server : Peer P) (mem : Memcached server) (max : ℕ) (scfg : Proxy.Config)
    (clock : ℕ → ℕ) (conf : Client.Config) (hashf : Bytes → ℕ → ℕ) (zlib : ZlibLibrary) where
  abbrev all : Servers
  all = cluster server max scfg clock

  pub fresh-IsUp :
      (s : P) (addrs : List Bytes) (i : ℕ)
      → All IsAddress addrs
      → i < length addrs
      → IsUp server max scfg clock i s (record { nodes = make_nodes P max s addrs; readings = 0 })
  fresh-IsUp s addrs i a small =
      let (addr, (dest, parsed), there) = make_nodes_at max s addrs i a small in
      (
        record {
          node = fresh_node max s addr;
          there = there;
          idle = tt;
          dest = dest;
          address = parsed;
          state = refl;
        },
        refl,
      )

  -- A set returns, and a get behind it gives the value and the flags back.
  abbrev pub GetsBack : Bytes → Bytes → Options → Whole P max → Type 0
  GetsBack key value opts client =
      let servers = walk hashf client.ring in
      let after = set all conf servers (set_command zlib key value opts) client.world in
      (after.1 ≡ returns tt)
      × ((get all conf servers (get_command zlib key) after.0).1
          ≡ returns (record { found = true; text = value; flags = opts.flags; cas = 0 }))

  -- Whatever the key and the hash function are, what is set through a client that was just constructed
  -- is what a get right behind it returns. Here the addresses are well formed and fewer than 2 ^ 32,
  -- the pool has virtual nodes, every server behaves as the protocol says, at least one server may be
  -- asked, the value fits (`Storable`), no expiration is asked for, and zlib inflates what it has deflated.
  pub new_client-set-get :
      (pcfg : ConsistentHashing.Config) (s : P) (addrs : List Bytes) (initialized : Bool)
      (client : Whole P max) (key value : Bytes) (opts : Options)
      → new_client hashf initialized pcfg s addrs ≡ returns client
      → All IsAddress addrs
      → length addrs < 2 ^ 32
      → 0 < pcfg.virtual_nodes
      → 0 < conf.max_continues
      → Storable mem.item_limit zlib key value opts
      → opts.expiration ≡ 0
      → Inflates zlib
      → GetsBack key value opts client
  unfolding new_client
  new_client-set-get pcfg s addrs initialized client key value opts made good few some_nodes
        some_tries k lasts inf =
      let (ring, pooled, built) = >>=-eq-returns (make_pool hashf pcfg addrs) _ made in
      let same = ready-returns initialized _ built in
      let (i, rest, on_walk, below) = walk_first hashf pcfg addrs ring key pooled some_nodes in
      let (stored, found, frame) =
        set-get server mem max scfg clock conf (walk hashf ring) zlib key value opts i rest _ k s
          inf lasts some_tries (no_last i (length addrs) below.0 few) on_walk
          (fresh-IsUp s addrs i good below.0) in
      subst (GetsBack key value opts) same (stored, found)
