-- ===== src/Cluster/RoundTrip.antt =====
-- include/mcache/client.h over include/mcache/proto/binary.h: what is set is what a later get returns,
-- through all the layers between the client and the server.
use mcache_client.Prelude.{
  ℕ, ◌+◌, ◌-◌, ◌^◌, ◌≤◌, ◌<◌, ◌≡◌, ◌≢◌, refl, ◌∙◌, ap, true, false, List, [], ◌∷◌, some, ◌==◌,
  Bytes, length, get_elem?,
}
use mcache_client.Error.{returns}
use mcache_client.Client as Client
use mcache_client.Client.{Servers, run}
use mcache_client.Client.Operations.{set, get, set_outcome, get_outcome}
use mcache_client.Cluster.{World, cluster}
use mcache_client.Cluster.Frame.{IsFinal}
use mcache_client.Cluster.Healthy.{IsUp}
use mcache_client.Cluster.Operate.{bound, operate_answers}
use mcache_client.Cluster.Memcached.{Memcached}
use mcache_client.Cluster.Memcached.Stored.{set-Answers}
use mcache_client.Cluster.Memcached.Hit.{get-Answers}
use mcache_client.Io.Tcp.{Peer}
use mcache_client.Proto.Key.{check_key}
use mcache_client.Proto.Options.{Options}
use mcache_client.Proto.Response.{single_body_response, single_retrieval_response}
use mcache_client.Proto.Zlib.{ZlibLibrary, Inflates}
use mcache_client.Proto.Bin.Api.{stored_by, storing, get_command, set_command}
use mcache_client.Proto.Bin.Commands.{
  StorageCommand, storage_command, set_code, get_code, serialize_storage, serialize_key,
  key_command,
}
use mcache_client.Proto.Bin.Framing.Storage.{sent_value}
use mcache_client.Server.Proxy as Proxy

-- A key that passes the check has a packet for either command.
pub set_serialized :
    (c : StorageCommand)
    → check_key c.key ≡ returns tt
    → (packet : Bytes) × (serialize_storage c set_code ≡ returns packet)
unfolding serialize_storage
set_serialized c e = (_, bound (check_key c.key) _ e)

pub get_serialized :
    (key : Bytes)
    → check_key key ≡ returns tt
    → (packet : Bytes) × (serialize_key (key_command key) get_code ≡ returns packet)
unfolding serialize_key key_command
get_serialized key e = (_, bound (check_key key) _ e)

-- The command that the constructor makes of a value.
pub constructed :
    (zlib : ZlibLibrary) (key value sent : Bytes) (opts : Options)
    → sent_value zlib value opts ≡ returns sent
    → (c : StorageCommand) × (storage_command zlib true key value opts ≡ returns c) × (c.key ≡ key)
unfolding storage_command
constructed zlib key value sent opts e = (_, bound (sent_value zlib value opts) _ e, refl)

-- What one call of a caller may ask for: the value is short enough for the protocol and for the server,
-- and it is no `cas`.
pub record Storable (limit : ℕ) (zlib : ZlibLibrary) (key value : Bytes) (opts : Options)
    : Type 0 where
  pub sent : Bytes
  pub is_sent : sent_value zlib value opts ≡ returns sent
  pub passes : check_key key ≡ returns tt
  pub named : key ≢ []
  pub no_cas : opts.cas ≡ 0
  pub flags_fit : opts.flags < 2 ^ 32
  pub value_fits : length value < 2 ^ 32
  pub sent_fits : length sent + 258 < 2 ^ 32
  pub has_room : length sent ≤ limit

module _ {P : Type 0} (server : Peer P) (mem : Memcached server) (max : ℕ) (cfg : Proxy.Config)
    (clock : ℕ → ℕ) (conf : Client.Config) (walk : Bytes → List ℕ) (zlib : ZlibLibrary) where
  abbrev all : Servers
  all = cluster server max cfg clock

  module _ (key value : Bytes) (opts : Options) (idx : ℕ) (rest : List ℕ) (w : World P max) where
    -- Behind a `set`: its server is up, holds the value in the form that it was sent in, and no other
    -- server was touched.
    abbrev Kept : Bytes → World P max → Type 0
    Kept sent w' =
        (s : P) × IsUp server max cfg clock idx s w'
        × (mem.holds s key ≡ some (opts.flags, sent))
        × ((j : ℕ) → idx ≢ j → get_elem? w'.nodes j ≡ get_elem? w.nodes j)

    set-Kept :
        (k : Storable mem.item_limit zlib key value opts) (s : P)
        → opts.expiration ≡ 0
        → 0 < conf.max_continues
        → (idx == 2 ^ 32 - 1) ≡ false
        → walk key ≡ idx ∷ rest
        → IsUp server max cfg clock idx s w
        → let after = set all conf walk (set_command zlib key value opts) w in
          (after.1 ≡ returns tt) × Kept k.sent after.0
    unfolding set set_command storing stored_by set_outcome
    set-Kept k s lasts some_tries fresh on_walk up =
        let (c, made, same_key) = constructed zlib key value k.sent opts k.is_sent in
        let (packet, serial) = set_serialized c (ap check_key same_key ∙ k.passes) in
        let (s', r, a, status, only, held) =
          set-Answers server mem zlib key value k.sent packet opts c s made k.is_sent serial k.named
            k.no_cas k.flags_fit k.has_room k.sent_fits in
        let final : IsFinal all conf r = ((λ e. cc), (λ e. cc)) in
        let (result, up', frame) =
          operate_answers server max cfg clock conf walk (stored_by set_code c) false set_outcome
            idx rest w s s' r some_tries fresh (ap walk same_key ∙ on_walk) (mem.listens s) up a
            final in
        rw made (result ∙ ap (set_outcome r) status, (s', up', held lasts, frame))

    get-found :
        (k : Storable mem.item_limit zlib key value opts)
        → Inflates zlib
        → 0 < conf.max_continues
        → (idx == 2 ^ 32 - 1) ≡ false
        → walk key ≡ idx ∷ rest
        → (w' : World P max) → Kept k.sent w'
        → (get all conf walk (get_command zlib key) w').1
          ≡ returns (record { found = true; text = value; flags = opts.flags; cas = 0 })
    unfolding get get_command get_outcome
    get-found k inf some_tries fresh on_walk w' (s, up, held, frame) =
        let (packet, serial) = get_serialized key k.passes in
        let (s', r, a, status, text, flags) =
          get-Answers server mem zlib key value k.sent packet opts s inf k.is_sent serial k.named
            k.flags_fit k.value_fits held k.has_room in
        let final : IsFinal all conf r = ((λ e. cc), (λ e. cc)) in
        let (result, up', untouched) =
          operate_answers server max cfg clock conf walk (get_command zlib key) true
            (get_outcome false) idx rest w' s s' r some_tries fresh on_walk (mem.listens s) up a
            final in
        result ∙ rw (status, text, flags) refl

    -- What a caller sets, compressed on the way or not, is what a get right behind it returns, with
    -- the flags that were set: through the client's loop, the proxy, its pool of connections, the
    -- command parser, the binary protocol and a TCP connection, in whatever pieces the answers
    -- arrive; and no server but the first of the key's walk is touched by the set. Here that server
    -- is up and behaves as the protocol says, no expiration is asked for, its index is not 2 ^ 32 - 1, at least one server may
    -- be asked, the value fits (`Storable`), and zlib inflates what it has deflated.
    pub set-get :
        (k : Storable mem.item_limit zlib key value opts) (s : P)
        → Inflates zlib
        → opts.expiration ≡ 0
        → 0 < conf.max_continues
        → (idx == 2 ^ 32 - 1) ≡ false
        → walk key ≡ idx ∷ rest
        → IsUp server max cfg clock idx s w
        → let after = set all conf walk (set_command zlib key value opts) w in
          (after.1 ≡ returns tt)
          × ((get all conf walk (get_command zlib key) after.0).1
              ≡ returns (record { found = true; text = value; flags = opts.flags; cas = 0 }))
          × ((j : ℕ) → idx ≢ j → get_elem? after.0.nodes j ≡ get_elem? w.nodes j)
    set-get k s inf lasts some_tries fresh on_walk up =
        let (stored, (s', up', held, frame)) = set-Kept k s lasts some_tries fresh on_walk up in
        (stored, get-found k inf some_tries fresh on_walk _ (s', up', held, frame), frame)
