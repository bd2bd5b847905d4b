-- ===== src/Cluster/Cache/Fetch.antt =====
-- include/mcache/client.h: a `get` at servers that are up.
use mcache_client.Prelude.{
  ℕ, ◌^◌, ◌<◌, ◌≡◌, ◌≢◌, refl, ◌∙◌, ap, true, false, List, [], some, Option-cases, inl, inr, Bytes,
}
use mcache_client.Error.{returns}
use mcache_client.Client as Client
use mcache_client.Client.{Servers, run}
use mcache_client.Client.Operations.{Found, miss, get, get_outcome}
use mcache_client.Cluster.{World, cluster}
use mcache_client.Cluster.Frame.{IsFinal}
use mcache_client.Cluster.Operate.{operate_answers}
use mcache_client.Cluster.Memcached.{Memcached}
use mcache_client.Cluster.Memcached.Hit.{get-Answers}
use mcache_client.Cluster.RoundTrip.{get_serialized}
use mcache_client.Cluster.Cache.{View, Request, Reply, hit, Allows}
use mcache_client.Cluster.Cache.Coherence.{IsWalk, Coheres, CoheresWithout, Coheres-Loses}
use mcache_client.Cluster.Cache.Loop.{AllUp-after}
use mcache_client.Cluster.Cache.Loop.Misses.{operate_misses}
use mcache_client.Cluster.Cache.Server.{Caching, get-Loses}
use mcache_client.Io.Tcp.{Peer}
use mcache_client.Proto.Key.{check_key}
use mcache_client.Proto.Response.{single_body_response, single_retrieval_response}
use mcache_client.Proto.Zlib.{ZlibLibrary, Inflates}
use mcache_client.Proto.Bin.Api.{get_command}
use mcache_client.Server.Proxy as Proxy
use mcache_client.Cluster.Whole.Fresh.{no_last}
use mcache_client.Cluster.Cache.Held.{IsCoherent, without, get_asked}

module _ {P : Type 0} (server : Peer P) (mem : Memcached server) (cache : Caching server mem)
    (max : ℕ) (cfg : Proxy.Config) (clock : ℕ → ℕ) (conf : Client.Config) (walk : Bytes → List ℕ)
    (zlib : ZlibLibrary) (n : ℕ) where
  abbrev all : Servers
  all = cluster server max cfg clock

  module _ (few : n < 2 ^ 32) (tries : 0 < conf.max_continues) (on_walks : IsWalk n walk) where
    pub get_coherent :
        (view : View) (key : Bytes) (w : World P max)
        → Inflates zlib
        → check_key key ≡ returns tt
        → key ≢ []
        → IsCoherent server mem cache max cfg clock walk zlib n view w
        → let after = get all conf walk (get_command zlib key) w in
          (found : Found) × (after.1 ≡ returns found)
          × Allows view (Request.fetch key) (Reply.got found) view
          × IsCoherent server mem cache max cfg clock walk zlib n view after.0
    unfolding get get_command get_outcome
    get_coherent view key w inf passes named up =
        let (idx, rest, on_walk, below) = on_walks key in
        let (s, was, h) = up idx below.0 in
        let (packet, serial) = get_serialized key passes in
        elim (Option-cases (mem.holds s key)) [
          | inl gone ↦
              let ((r, result), up') =
                operate_misses server max cfg clock (get_command zlib key) conf true n
                  (CoheresWithout server mem cache walk zlib key view) mem.listens
                  (get_asked server mem cache max cfg clock walk zlib n view key packet named
                    serial)
                  walk (get_outcome false) idx rest w tries (no_last idx n below.0 few) on_walk
                  below
                  (without server mem cache max cfg clock walk zlib n view idx rest w key s on_walk
                    up was h gone) in
              (
                miss,
                result,
                Allows.misses key,
                (λ j small. let (t, at, k) = up' j small in (t, at, k.0)),
              )
          | inr (e, held) ↦
              let a = h key e held in
              let k = a.suits in
              let (s', r, ans, status, text, flags) =
                get-Answers server mem zlib key a.value k.sent packet a.opts s inf k.is_sent serial
                  named k.flags_fit k.value_fits (held ∙ ap some a.entry) k.has_room in
              let final : IsFinal all conf r = ((λ e. cc), (λ e. cc)) in
              let (result, here, frame) =
                operate_answers server max cfg clock conf walk (get_command zlib key) true
                  (get_outcome false) idx rest w s s' r tries (no_last idx n below.0 few) on_walk
                  (mem.listens s) was ans final in
              let loses = get-Loses server mem cache zlib key s s' r ans in
              (
                hit a.value a.opts.flags,
                result ∙ rw (status, text, flags) refl,
                Allows.hits key a.value a.opts.flags a.seen,
                AllUp-after server max cfg clock n idx (Coheres server mem cache walk zlib view)
                    (Coheres server mem cache walk zlib view) w _ s' up here
                    (Coheres-Loses server mem cache walk zlib view idx s s' loses h) (λ j t ne k. k)
                    frame,
              )
        ]
