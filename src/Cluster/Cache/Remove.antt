-- ===== src/Cluster/Cache/Remove.antt =====
-- include/mcache/client.h: a `del` at servers that are up.
use mcache_client.Prelude.{
  ℕ, ◌^◌, ◌<◌, ◌≡◌, ◌≢◌, ◌∙◌, ap, Bool, true, false, List, [], none, Option-cases, inl, inr, Bytes,
}
use mcache_client.Error.{returns}
use mcache_client.Client as Client
use mcache_client.Client.{Servers, run}
use mcache_client.Client.Operations.{del, del_outcome}
use mcache_client.Cluster.{World, cluster}
use mcache_client.Cluster.Frame.{IsFinal}
use mcache_client.Cluster.Operate.{operate_answers}
use mcache_client.Cluster.Memcached.{Memcached}
use mcache_client.Cluster.Cache.{View, Request, Reply, Allows, written}
use mcache_client.Cluster.Cache.Coherence.{
  IsWalk, CoheresWithout, Coheres-Loses, CoheresWithout-written,
}
use mcache_client.Cluster.Cache.Loop.Misses.{operate_misses}
use mcache_client.Cluster.Cache.Server.{Caching, delete-Loses}
use mcache_client.Cluster.Cache.Server.Deleting.{delete-Answers}
use mcache_client.Io.Tcp.{Peer}
use mcache_client.Proto.Key.{check_key}
use mcache_client.Proto.Response.{single_body_response, single_retrieval_response}
use mcache_client.Proto.Zlib.{ZlibLibrary}
use mcache_client.Proto.Bin.Api.{delete_command}
use mcache_client.Server.Proxy as Proxy
use mcache_client.Cluster.Whole.Fresh.{no_last}
use mcache_client.Cluster.Cache.Held.{
  delete_serialized, IsCoherent, without, after_write, delete_asked,
}

module _ {P : Type 0} (server : Peer P) (mem : Memcached server) (cache : Caching server mem)
    (max : ℕ) (cfg : Proxy.Config) (clock : ℕ → ℕ) (conf : Client.Config) (walk : Bytes → List ℕ)
    (zlib : ZlibLibrary) (n : ℕ) where
  abbrev all : Servers
  all = cluster server max cfg clock

  module _ (few : n < 2 ^ 32) (tries : 0 < conf.max_continues) (on_walks : IsWalk n walk) where
    pub del_coherent :
        (view : View) (key : Bytes) (w : World P max)
        → check_key key ≡ returns tt
        → key ≢ []
        → IsCoherent server mem cache max cfg clock walk zlib n view w
        → let after = del all conf walk (returns (delete_command key)) w in
          (done : Bool) × (after.1 ≡ returns done)
          × Allows view (Request.remove key) (Reply.removed done) (written view key none)
          × IsCoherent server mem cache max cfg clock walk zlib n (written view key none) after.0
    unfolding del delete_command del_outcome
    del_coherent view key w passes named up =
        let (idx, rest, on_walk, below) = on_walks key in
        let (s, was, h) = up idx below.0 in
        let (packet, serial) = delete_serialized key passes in
        let next = written view key none in
        let forgets =
          λ (j : ℕ) (t : P). CoheresWithout-written server mem cache walk zlib view j t key none in
        elim (Option-cases (mem.holds s key)) [
          | inl gone ↦
              let ((r, result), up') =
                operate_misses server max cfg clock (delete_command key) conf false n
                  (CoheresWithout server mem cache walk zlib key view) mem.listens
                  (delete_asked server mem cache max cfg clock walk zlib n view key packet named
                    serial)
                  walk del_outcome idx rest w tries (no_last idx n below.0 few) on_walk below
                  (without server mem cache max cfg clock walk zlib n view idx rest w key s on_walk
                    up was h gone) in
              (
                false,
                result,
                Allows.lacks key,
                (λ j small. let (t, at, k) = up' j small in (t, at, forgets j t k)),
              )
          | inr (e, held) ↦
              let a = h key e held in
              let (s', r, ans, status, gone) =
                delete-Answers server mem cache key packet s e named serial held in
              let final : IsFinal all conf r = ((λ e. cc), (λ e. cc)) in
              let (result, here, frame) =
                operate_answers server max cfg clock conf walk (delete_command key) false
                  del_outcome idx rest w s s' r tries (no_last idx n below.0 few) on_walk
                  (mem.listens s) was ans final in
              let loses = delete-Loses server mem cache zlib key s s' r ans in
              (
                true,
                result ∙ ap (del_outcome r) status,
                Allows.removes key (a.value, a.opts.flags) a.seen,
                after_write server mem cache max cfg clock walk zlib n view next idx rest w _ key s'
                    on_walk up here
                    (forgets idx s'
                      (Coheres-Loses server mem cache walk zlib view idx s s' loses h, gone))
                    forgets frame,
              )
        ]
