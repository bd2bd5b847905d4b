-- ===== src/Cluster/Cache/Steps.antt =====
-- include/mcache/client.h: each operation does to the servers what the cache allows.
use mcache_client.Prelude.{ℕ, ◌^◌, ◌<◌, ◌≡◌, refl, List, none, some, Bytes}
use mcache_client.Error.{returns}
use mcache_client.Client as Client
use mcache_client.Client.{Servers, run}
use mcache_client.Client.Operations.{set, get, del}
use mcache_client.Cluster.{World, cluster}
use mcache_client.Cluster.Memcached.{Memcached}
use mcache_client.Cluster.Cache.{View, Request, Reply, Allows, written, perform}
use mcache_client.Cluster.Cache.Coherence.{IsWalk, Suits}
use mcache_client.Cluster.Cache.Server.{Caching}
use mcache_client.Io.Tcp.{Peer}
use mcache_client.Proto.Command.{lift, >>=-of-returns}
use mcache_client.Proto.Response.{single_body_response, single_retrieval_response}
use mcache_client.Proto.Zlib.{ZlibLibrary, Inflates}
use mcache_client.Proto.Bin.Api.{get_command, set_command, delete_command}
use mcache_client.Server.Proxy as Proxy
use mcache_client.Cluster.Cache.Held.{IsCoherent}
use mcache_client.Cluster.Cache.Put.{set_coherent}
use mcache_client.Cluster.Cache.Fetch.{get_coherent}
use mcache_client.Cluster.Cache.Remove.{del_coherent}

module _ {P : Type 0} (server : Peer P) (mem : Memcached server) (cache : Caching server mem)
    (max : ℕ) (cfg : Proxy.Config) (clock : ℕ → ℕ) (conf : Client.Config) (walk : Bytes → List ℕ)
    (zlib : ZlibLibrary) (n : ℕ) where
  abbrev all : Servers
  all = cluster server max cfg clock

  module _ (few : n < 2 ^ 32) (tries : 0 < conf.max_continues) (on_walks : IsWalk n walk) where
    -- One request.
    pub perform_coherent :
        (view : View) (request : Request) (w : World P max)
        → Inflates zlib
        → Suits server mem cache walk zlib request
        → IsCoherent server mem cache max cfg clock walk zlib n view w
        → let after = perform all conf walk zlib request w in
          (reply : Reply) × (next : View) × (after.1 ≡ returns reply)
          × Allows view request reply next
          × IsCoherent server mem cache max cfg clock walk zlib n next after.0
    unfolding perform
    perform_coherent view (Request.put key value opts) w inf k up =
        let (stored, up') =
          set_coherent server mem cache max cfg clock conf walk zlib n few tries on_walks view key
            value opts w k up in
        let same =
          >>=-of-returns (set all conf walk (set_command zlib key value opts))
            (λ _. lift (returns Reply.stored)) w stored in
        rw same (
          Reply.stored,
          written view key (some (value, opts.flags)),
          refl,
          Allows.puts key value opts,
          up',
        )
    perform_coherent view (Request.fetch key) w inf (passes, named) up =
        let (found, returned, allowed, up') =
          get_coherent server mem cache max cfg clock conf walk zlib n few tries on_walks view key w
            inf passes named up in
        let same =
          >>=-of-returns (get all conf walk (get_command zlib key))
            (λ found. lift (returns (Reply.got found))) w returned in
        rw same (Reply.got found, view, refl, allowed, up')
    perform_coherent view (Request.remove key) w inf (passes, named) up =
        let (done, returned, allowed, up') =
          del_coherent server mem cache max cfg clock conf walk zlib n few tries on_walks view key w
            passes named up in
        let same =
          >>=-of-returns (del all conf walk (returns (delete_command key)))
            (λ done. lift (returns (Reply.removed done))) w returned in
        rw same (Reply.removed done, written view key none, refl, allowed, up')
