-- ===== src/Cluster/Cache/Held.antt =====
-- The client's servers, all up, and what they hold against what was set through the client.
use mcache_client.Prelude.{ℕ, ◌≡◌, ◌≢◌, refl, List, [], ◌∷◌, none, Bytes, get_elem?}
use mcache_client.Error.{ResponseCode, returns}
use mcache_client.Cluster.{World}
use mcache_client.Cluster.Exchange.{Answers}
use mcache_client.Cluster.Healthy.{IsUp}
use mcache_client.Cluster.Operate.{bound}
use mcache_client.Cluster.Memcached.{Memcached}
use mcache_client.Cluster.Cache.{View}
use mcache_client.Cluster.Cache.Coherence.{
  Coheres, CoheresWithout, Coheres-Loses, Loses-none, Coheres-elsewhere,
}
use mcache_client.Cluster.Cache.Loop.{AllUp, AllUp-after}
use mcache_client.Cluster.Cache.Server.{Caching, get-Loses, delete-Loses, get-misses}
use mcache_client.Cluster.Cache.Server.Deleting.{delete-misses}
use mcache_client.Io.Tcp.{Peer}
use mcache_client.Proto.Key.{check_key}
use mcache_client.Proto.Response.{
  SingleBodyResponse, SingleRetrievalResponse, single_body_response, single_retrieval_response,
}
use mcache_client.Proto.Zlib.{ZlibLibrary}
use mcache_client.Proto.Bin.Api.{get_command, delete_command}
use mcache_client.Proto.Bin.Commands.{serialize_key, key_command, get_code, delete_code}
use mcache_client.Server.Proxy as Proxy

pub delete_serialized :
    (key : Bytes)
    → check_key key ≡ returns tt
    → (packet : Bytes) × (serialize_key (key_command key) delete_code ≡ returns packet)
unfolding serialize_key key_command
delete_serialized key e = (_, bound (check_key key) _ e)

module _ {P : Type 0} (server : Peer P) (mem : Memcached server) (cache : Caching server mem)
    (max : ℕ) (cfg : Proxy.Config) (clock : ℕ → ℕ) (walk : Bytes → List ℕ) (zlib : ZlibLibrary)
    (n : ℕ) where
  -- Every server is up, and holds only what was last set.
  abbrev pub IsCoherent : View → World P max → Type 0
  IsCoherent view = AllUp server max cfg clock n (Coheres server mem cache walk zlib view)

  abbrev pub IsCoherentWithout : Bytes → View → World P max → Type 0
  IsCoherentWithout key view =
      AllUp server max cfg clock n (CoheresWithout server mem cache walk zlib key view)

  -- Where the first server does not hold a key, no server does.
  pub without :
      (view : View) (i : ℕ) (rest : List ℕ) (w : World P max) (key : Bytes) (s : P)
      → walk key ≡ i ∷ rest
      → IsCoherent view w
      → IsUp server max cfg clock i s w
      → Coheres server mem cache walk zlib view i s
      → mem.holds s key ≡ none
      → IsCoherentWithout key view w
  without view i rest w key s on_walk up was h gone =
      AllUp-after server max cfg clock n i (Coheres server mem cache walk zlib view)
        (CoheresWithout server mem cache walk zlib key view) w w s up was (h, gone)
        (λ j t ne k.
          (k, Coheres-elsewhere server mem cache walk zlib view i j rest t key on_walk ne k))
        (λ j ne. refl)

  -- A write at the first server, which then holds the new value or nothing.
  pub after_write :
      (view next : View) (i : ℕ) (rest : List ℕ) (w w' : World P max) (key : Bytes) (s' : P)
      → walk key ≡ i ∷ rest
      → IsCoherent view w
      → IsUp server max cfg clock i s' w'
      → Coheres server mem cache walk zlib next i s'
      → ((j : ℕ) (s : P)
          → CoheresWithout server mem cache walk zlib key view j s
          → Coheres server mem cache walk zlib next j s)
      → ((j : ℕ) → i ≢ j → get_elem? w'.nodes j ≡ get_elem? w.nodes j)
      → IsCoherent next w'
  after_write view next i rest w w' key s' on_walk up here h others frame =
      AllUp-after server max cfg clock n i (Coheres server mem cache walk zlib view)
        (Coheres server mem cache walk zlib next) w w' s' up here h
        (λ j t ne k.
          others j t
            (k, Coheres-elsewhere server mem cache walk zlib view i j rest t key on_walk ne k))
        frame

  -- Every server that does not hold the key says so, whichever is asked, and holds no more than before.
  pub get_asked :
      (view : View) (key packet : Bytes)
      → key ≢ []
      → serialize_key (key_command key) get_code ≡ returns packet
      → (j : ℕ) (s : P) → CoheresWithout server mem cache walk zlib key view j s
      → (s' : P) × (r : SingleRetrievalResponse) × Answers server (get_command zlib key) s s' r
        × (r.status ≡ ResponseCode.not_found)
        × CoheresWithout server mem cache walk zlib key view j s'
  get_asked view key packet named serial j s (h, gone) =
      let (s', r, a, code) = get-misses server mem cache zlib key packet s named serial gone in
      let loses = get-Loses server mem cache zlib key s s' r a in
      (
        s',
        r,
        a,
        code,
        (
          Coheres-Loses server mem cache walk zlib view j s s' loses h,
          Loses-none server mem cache walk zlib key s s' loses gone,
        ),
      )

  pub delete_asked :
      (view : View) (key packet : Bytes)
      → key ≢ []
      → serialize_key (key_command key) delete_code ≡ returns packet
      → (j : ℕ) (s : P) → CoheresWithout server mem cache walk zlib key view j s
      → (s' : P) × (r : SingleBodyResponse) × Answers server (delete_command key) s s' r
        × (r.status ≡ ResponseCode.not_found)
        × CoheresWithout server mem cache walk zlib key view j s'
  delete_asked view key packet named serial j s (h, gone) =
      let (s', r, a, code, gone') = delete-misses server mem cache key packet s named serial gone in
      let loses = delete-Loses server mem cache zlib key s s' r a in
      (s', r, a, code, (Coheres-Loses server mem cache walk zlib view j s s' loses h, gone'))
