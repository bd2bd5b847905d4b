-- ===== src/Cluster/Cache/Refinement.antt =====
-- include/mcache/client.h: the client, with its servers, is a cache.
use mcache_client.Prelude.{
  ℕ, ◌^◌, ◌<◌, All, ◌≡◌, refl, subst, Bool, List, [], ◌∷◌, none, Bytes, length,
}
use mcache_client.Error.{returns, >>=-eq-returns}
use mcache_client.Client as Client
use mcache_client.Client.{Servers}
use mcache_client.Cluster.{World, cluster}
use mcache_client.Cluster.Memcached.{Memcached}
use mcache_client.Cluster.Cache.{View, Request, Reply, empty, Runs, perform, perform_all}
use mcache_client.Cluster.Cache.Coherence.{IsWalk, Suits}
use mcache_client.Cluster.Cache.Server.{Caching}
use mcache_client.Cluster.Cache.Held.{IsCoherent}
use mcache_client.Cluster.Cache.Steps.{perform_coherent}
use mcache_client.Cluster.Whole.{Whole, new_client, walk}
use mcache_client.Cluster.Whole.Fresh.{IsAddress, walk_first, fresh-IsUp, ready-returns}
use mcache_client.Io.Tcp.{Peer}
use mcache_client.Pool.ConsistentHashing as ConsistentHashing
use mcache_client.Pool.ConsistentHashing.{make_pool}
use mcache_client.Proto.Command.{◌>>=◌, lift, >>=-of-returns}
use mcache_client.Proto.Zlib.{ZlibLibrary, Inflates}
use mcache_client.Server.Proxy as Proxy

module _ {P : Type 0} (server : Peer P) (mem : Memcached server) (cache : Caching server mem)
    (max : ℕ) (cfg : Proxy.Config) (clock : ℕ → ℕ) (conf : Client.Config) (zlib : ZlibLibrary) where
  abbrev all : Servers
  all = cluster server max cfg clock

  module _ (walk : Bytes → List ℕ) (n : ℕ) where
    -- Every request is answered, each as the cache allows.
    abbrev pub Refines : View → List Request → World P max → Type 0
    Refines view requests w =
        let after = perform_all all conf walk zlib requests w in
        (replies : List Reply) × (last : View) × (after.1 ≡ returns replies)
        × Runs view requests replies last
        × IsCoherent server mem cache max cfg clock walk zlib n last after.0

    -- Requests through a client whose servers are all up and hold only what was last set.
    pub perform_all-Refines :
        (requests : List Request) (view : View) (w : World P max)
        → n < 2 ^ 32
        → 0 < conf.max_continues
        → IsWalk n walk
        → Inflates zlib
        → All (Suits server mem cache walk zlib) requests
        → IsCoherent server mem cache max cfg clock walk zlib n view w
        → Refines view requests w
    unfolding perform_all
    perform_all-Refines [] view w few tries walks inf suits up = ([], view, refl, Runs.ends, up)
    perform_all-Refines (request ∷ requests) view w few tries walks inf suits up =
        let (reply, next, told, allowed, up') =
          perform_coherent server mem cache max cfg clock conf walk zlib n few tries walks view
            request w inf suits.0 up in
        let w' = (perform all conf walk zlib request w).0 in
        let (replies, last, returned, runs, up'') =
          perform_all-Refines requests next w' few tries walks inf suits.1 up' in
        let first =
          >>=-of-returns (perform all conf walk zlib request)
            (λ reply. perform_all all conf walk zlib requests >>= λ replies.
              lift (returns (reply ∷ replies)))
            w told in
        let then =
          >>=-of-returns (perform_all all conf walk zlib requests)
            (λ replies. lift (returns (reply ∷ replies))) w' returned in
        rw (first, then) (reply ∷ replies, last, refl, Runs.goes_on allowed runs, up'')

  -- A new client is a cache: it answers every request of any sequence of sets, gets and deletions, and
  -- its replies are ones that an empty cache allows for that sequence (`Runs`). So a get finds nothing
  -- or exactly the value and the flags that were last set under its key, never those of another key,
  -- of an earlier set or from before a deletion, and a deletion is told to have deleted something only
  -- if something was set. Here the addresses are well formed and fewer than 2 ^ 32, the pool has
  -- virtual nodes, every server starts with nothing and behaves as the protocol says (`Memcached`,
  -- `Caching`: it may forget, and does not make things up), at least one server may be asked, every
  -- key passes the check and is not empty, every value fits (`Suits`), and zlib inflates what it has
  -- deflated.
  pub new_client-Refines :
      (hashf : Bytes → ℕ → ℕ) (pcfg : ConsistentHashing.Config) (s : P) (addrs : List Bytes)
      (initialized : Bool) (client : Whole P max) (requests : List Request)
      → new_client hashf initialized pcfg s addrs ≡ returns client
      → All IsAddress addrs
      → length addrs < 2 ^ 32
      → 0 < pcfg.virtual_nodes
      → 0 < conf.max_continues
      → ((key : Bytes) → mem.holds s key ≡ none)
      → Inflates zlib
      → All (Suits server mem cache (walk hashf client.ring) zlib) requests
      → Refines (walk hashf client.ring) (length addrs) empty requests client.world
  unfolding new_client
  new_client-Refines hashf pcfg s addrs initialized client requests made good few some_nodes tries
        nothing inf suits =
      let (ring, pooled, built) = >>=-eq-returns (make_pool hashf pcfg addrs) _ made in
      let same = ready-returns initialized _ built in
      let n = length addrs in
      subst
        (λ (c : Whole P max).
          All (Suits server mem cache (walk hashf c.ring) zlib) requests
          → Refines (walk hashf c.ring) n empty requests c.world)
        same
        (λ suits'.
          perform_all-Refines (walk hashf ring) n requests empty _ few tries
            (λ key. walk_first hashf pcfg addrs ring key pooled some_nodes) inf suits'
            (λ i small. (
              s,
              fresh-IsUp server mem max cfg clock conf hashf zlib s addrs i good small,
              (λ key e held. cc (nothing key)),
            )))
        suits
