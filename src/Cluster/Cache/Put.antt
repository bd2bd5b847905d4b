-- ===== src/Cluster/Cache/Put.antt =====
-- include/mcache/client.h: a `set` at servers that are up.
use mcache_client.Prelude.{ℕ, ◌^◌, ◌<◌, ◌≡◌, refl, sym, ◌∙◌, ap, false, List, some, Bytes, subst}
use mcache_client.Error.{returns}
use mcache_client.Client as Client
use mcache_client.Client.{Servers, run}
use mcache_client.Client.Operations.{set, set_outcome}
use mcache_client.Cluster.{World, cluster}
use mcache_client.Cluster.Frame.{IsFinal}
use mcache_client.Cluster.Operate.{operate_answers}
use mcache_client.Cluster.Memcached.{Memcached}
use mcache_client.Cluster.Memcached.Stored.{set-Answers}
use mcache_client.Cluster.RoundTrip.{Storable, set_serialized, constructed}
use mcache_client.Cluster.Cache.{View, written, written_self}
use mcache_client.Cluster.Cache.Coherence.{
  IsWalk, Agrees, Coheres, Coheres-written, CoheresWithout-written,
}
use mcache_client.Cluster.Cache.Server.{Caching, set_keeps}
use mcache_client.Io.Tcp.{Peer}
use mcache_client.Proto.Key.{check_key}
use mcache_client.Proto.Options.{Options}
use mcache_client.Proto.Response.{single_body_response, single_retrieval_response}
use mcache_client.Proto.Zlib.{ZlibLibrary}
use mcache_client.Proto.Bin.Api.{stored_by, storing, set_command}
use mcache_client.Proto.Bin.Commands.{set_code}
use mcache_client.Server.Proxy as Proxy
use mcache_client.Cluster.Whole.Fresh.{no_last}
use mcache_client.Cluster.Cache.Held.{IsCoherent, after_write}

module _ {P : Type 0} (server : Peer P) (mem : Memcached server) (cache : Caching server mem)
    (max : ℕ) (cfg : Proxy.Config) (clock : ℕ → ℕ) (conf : Client.Config) (walk : Bytes → List ℕ)
    (zlib : ZlibLibrary) (n : ℕ) where
  abbrev all : Servers
  all = cluster server max cfg clock

  module _ (few : n < 2 ^ 32) (tries : 0 < conf.max_continues) (on_walks : IsWalk n walk) where
    pub set_coherent :
        (view : View) (key value : Bytes) (opts : Options) (w : World P max)
        → Storable mem.item_limit zlib key value opts
        → IsCoherent server mem cache max cfg clock walk zlib n view w
        → let after = set all conf walk (set_command zlib key value opts) w in
          (after.1 ≡ returns tt)
          × IsCoherent server mem cache max cfg clock walk zlib n
              (written view key (some (value, opts.flags)))
              after.0
    unfolding set set_command storing stored_by set_outcome
    set_coherent view key value opts w k up =
        let (idx, rest, on_walk, below) = on_walks key in
        let (s, was, h) = up idx below.0 in
        let (c, made, same_key) = constructed zlib key value k.sent opts k.is_sent in
        let (packet, serial) = set_serialized c (ap check_key same_key ∙ k.passes) in
        let (s', r, a, status, only, held) =
          set-Answers server mem zlib key value k.sent packet opts c s made k.is_sent serial k.named
            k.no_cas k.flags_fit k.has_room k.sent_fits in
        let final : IsFinal all conf r = ((λ e. cc), (λ e. cc)) in
        let (result, here, frame) =
          operate_answers server max cfg clock conf walk (stored_by set_code c) false set_outcome
            idx rest w s s' r tries (no_last idx n below.0 few) (ap walk same_key ∙ on_walk)
            (mem.listens s) was a final in
        let next = written view key (some (value, opts.flags)) in
        let agrees : Agrees server mem cache walk zlib next idx key (opts.flags, k.sent) = record {
          rest = rest;
          first = on_walk;
          value = value;
          opts = opts;
          suits = k;
          entry = refl;
          seen = written_self view key (some (value, opts.flags));
        } in
        let new : Coheres server mem cache walk zlib next idx s' =
          Coheres-written server mem cache walk zlib view idx s' key (some (value, opts.flags))
            (λ e there.
              subst (Agrees server mem cache walk zlib next idx key) (sym (only e there)) agrees)
            (λ other e ne there. h other e (
              set_keeps server mem cache zlib key value k.sent opts c s s' r made k.is_sent k.no_cas
                k.sent_fits a other e ne there)) in
        rw made (
          result ∙ ap (set_outcome r) status,
          after_write server mem cache max cfg clock walk zlib n view next idx rest w _ key s'
              on_walk up here new
              (λ j t.
                CoheresWithout-written server mem cache walk zlib view j t key
                  (some (value, opts.flags)))
              frame,
        )
