-- ===== src/Cluster/Text/RoundTrip.antt =====
-- include/mcache/client.h over include/mcache/proto/txt.h: what is set is what a later get returns,
-- through all the layers between the client and the server.
use mcache_client.Prelude.{
  ℕ, ◌+◌, ◌-◌, ◌^◌, ◌≤◌, ◌<◌, ◌≡◌, ◌≢◌, refl, ◌∙◌, true, false, List, ◌∷◌, some, ◌==◌, Bytes, codes,
  length, get_elem?,
}
use mcache_client.Error.{returns}
use mcache_client.Client as Client
use mcache_client.Client.{Servers}
use mcache_client.Client.Operations.{set, get, set_outcome, get_outcome}
use mcache_client.Cluster.{World, cluster}
use mcache_client.Cluster.Frame.{IsFinal}
use mcache_client.Cluster.Healthy.{IsUp}
use mcache_client.Cluster.Operate.{bound, operate_answers}
use mcache_client.Cluster.Text.{TextServer}
use mcache_client.Cluster.Text.Get.{get-Answers}
use mcache_client.Cluster.Text.Set.{set-Answers}
use mcache_client.Io.Tcp.{Peer}
use mcache_client.Proto.Key.{check_key}
use mcache_client.Proto.Options.{Options}
use mcache_client.Proto.Response.{single_response, single_retrieval_response}
use mcache_client.Proto.Zlib.{ZlibLibrary, Inflates}
use mcache_client.Proto.Bin.Framing.Storage.{sent_value}
use mcache_client.Proto.Txt.Api.{stored_by, storing, get_command, set_command}
use mcache_client.Proto.Txt.Requests.{
  StorageCommand, storage_command, serialize_storage, serialize_retrieve,
}
use mcache_client.Server.Proxy as Proxy

-- A key that passes the check has a packet for either command.
set_serialized :
    (c : StorageCommand) (name : Bytes)
    → check_key c.key ≡ returns tt
    → (packet : Bytes) × (serialize_storage c name ≡ returns packet)
unfolding serialize_storage
set_serialized c name e = (_, bound (check_key c.key) _ e)

get_serialized :
    (key name : Bytes)
    → check_key key ≡ returns tt
    → (packet : Bytes) × (serialize_retrieve key name ≡ returns packet)
unfolding serialize_retrieve
get_serialized key name e = (_, bound (check_key key) _ e)

-- The command that the constructor makes of a value.
constructed :
    (zlib : ZlibLibrary) (key value sent : Bytes) (opts : Options)
    → sent_value zlib value opts ≡ returns sent
    → storage_command zlib key value opts
      ≡ returns (record { key = key; value = sent; opts = opts })
unfolding storage_command
constructed zlib key value sent opts e = bound (sent_value zlib value opts) _ e

-- What one call of a caller may ask for: the numbers and the value are short enough for the protocol and
-- for the server, and it is no `cas`.
pub record TextStorable (limit : ℕ) (zlib : ZlibLibrary) (key value : Bytes) (opts : Options)
    : Type 0 where
  pub sent : Bytes
  pub is_sent : sent_value zlib value opts ≡ returns sent
  pub passes : check_key key ≡ returns tt
  pub no_cas : opts.cas ≡ 0
  pub flags_fit : opts.flags < 2 ^ 32
  pub expiration_fits : opts.expiration < 2 ^ 64
  pub value_fits : length value < 2 ^ 32
  pub sent_fits : length sent + 7 < 2 ^ 64
  pub has_room : length sent ≤ limit

module _ {P : Type 0} (server : Peer P) (mem : TextServer server) (max : ℕ) (cfg : Proxy.Config)
    (clock : ℕ → ℕ) (conf : Client.Config) (walk : Bytes → List ℕ) (zlib : ZlibLibrary) where
  abbrev all : Servers
  all = cluster server max cfg clock

  module _ (c : ℕ) (name value : Bytes) (opts : Options) (idx : ℕ) (rest : List ℕ)
      (w : World P max) where
    abbrev key : Bytes
    key = c ∷ name

    -- Behind a `set`: its server is up, holds the value in the form that it was sent in, and no other
    -- server was touched.
    abbrev Kept : Bytes → World P max → Type 0
    Kept sent w' =
        (s : P) × IsUp server max cfg clock idx s w'
        × (mem.holds s key ≡ some (opts.flags, sent))
        × ((j : ℕ) → idx ≢ j → get_elem? w'.nodes j ≡ get_elem? w.nodes j)

    set-Kept :
        (k : TextStorable mem.item_limit zlib key value opts) (s : P)
        → opts.expiration ≡ 0
        → 0 < conf.max_continues
        → (idx == 2 ^ 32 - 1) ≡ false
        → walk key ≡ idx ∷ rest
        → IsUp server max cfg clock idx s w
        → let after = set all conf walk (set_command zlib key value opts) w in
          (after.1 ≡ returns tt) × Kept k.sent after.0
    unfolding set set_command storing stored_by set_outcome
    set-Kept k s lasts some_tries fresh on_walk up =
        let command : StorageCommand = record { key = key; value = k.sent; opts = opts } in
        let (packet, serial) = set_serialized command (codes "set") k.passes in
        let (s', a, held) =
          set-Answers server mem c name k.sent packet opts s serial k.no_cas k.flags_fit
            k.expiration_fits k.sent_fits k.has_room in
        let (result, up', frame) =
          operate_answers server max cfg clock conf walk (stored_by (codes "set") command) false
            set_outcome idx rest w s s' _ some_tries fresh on_walk (mem.listens s) up a
            ((λ e. cc), (λ e. cc)) in
        rw (constructed zlib key value k.sent opts k.is_sent) (result, (s', up', held lasts, frame))

    get-found :
        (k : TextStorable mem.item_limit zlib key value opts)
        → Inflates zlib
        → 0 < conf.max_continues
        → (idx == 2 ^ 32 - 1) ≡ false
        → walk key ≡ idx ∷ rest
        → (w' : World P max) → Kept k.sent w'
        → (get all conf walk (get_command zlib key) w').1
          ≡ returns (record { found = true; text = value; flags = opts.flags; cas = 0 })
    unfolding get get_command get_outcome
    get-found k inf some_tries fresh on_walk w' (s, up, held, frame) =
        let (packet, serial) = get_serialized key (codes "get") k.passes in
        let (s', r, a, status, text, flags) =
          get-Answers zlib server mem c name value k.sent packet opts s inf k.is_sent serial
            k.passes k.flags_fit k.value_fits k.sent_fits k.has_room held in
        let final : IsFinal all conf r = ((λ e. cc), (λ e. cc)) in
        let (result, up', untouched) =
          operate_answers server max cfg clock conf walk (get_command zlib key) true
            (get_outcome false) idx rest w' s s' r some_tries fresh on_walk (mem.listens s) up a
            final in
        result ∙ rw (status, text, flags) refl

    -- The same holds over the text protocol: what a caller sets under a key that is not empty,
    -- compressed on the way or not, is what a get right behind it returns, with the flags that were
    -- set; and no server but the first of the key's walk is touched by the set. Here that server is
    -- up and behaves as the protocol says, no expiration is asked for, its index is not 2 ^ 32 - 1, at least one server may be
    -- asked, the value fits (`TextStorable`), and zlib inflates what it has deflated.
    pub set-get_text :
        (k : TextStorable mem.item_limit zlib key value opts) (s : P)
        → Inflates zlib
        → opts.expiration ≡ 0
        → 0 < conf.max_continues
        → (idx == 2 ^ 32 - 1) ≡ false
        → walk key ≡ idx ∷ rest
        → IsUp server max cfg clock idx s w
        → let after = set all conf walk (set_command zlib key value opts) w in
          (after.1 ≡ returns tt)
          × ((get all conf walk (get_command zlib key) after.0).1
              ≡ returns (record { found = true; text = value; flags = opts.flags; cas = 0 }))
          × ((j : ℕ) → idx ≢ j → get_elem? after.0.nodes j ≡ get_elem? w.nodes j)
    set-get_text k s inf lasts some_tries fresh on_walk up =
        let (stored, (s', up', held, frame)) = set-Kept k s lasts some_tries fresh on_walk up in
        (stored, get-found k inf some_tries fresh on_walk _ (s', up', held, frame), frame)
