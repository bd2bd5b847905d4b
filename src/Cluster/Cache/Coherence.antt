-- ===== src/Cluster/Cache/Coherence.antt =====
-- When the servers agree with what was set through the client: who may hold what.
use mcache_client.Prelude.{
  ℕ, ◌<◌, All, ◌≡◌, ◌≢◌, sym, ◌∙◌, ap, subst, List, ◌∷◌, Option, none, some, Option-cases,
  Bool-cases, inl, inr, [], Bytes,
}
use mcache_client.Error.{returns}
use mcache_client.Io.Tcp.{Peer}
use mcache_client.Proto.Key.{check_key}
use mcache_client.Proto.Options.{Options}
use mcache_client.Proto.Zlib.{ZlibLibrary}
use mcache_client.Cluster.Memcached.{Memcached}
use mcache_client.Cluster.RoundTrip.{Storable}
use mcache_client.Cluster.Cache.{
  View, Request, written, written_other, same_bytes, same_bytes_refl, same_bytes_eq,
}
use mcache_client.Cluster.Cache.Server.{Caching, Loses}

-- Every key's walk begins, and stays below the number of servers.
abbrev pub IsWalk : ℕ → (Bytes → List ℕ) → Type 0
IsWalk n walk =
    (key : Bytes) → (i : ℕ) × (rest : List ℕ) × (walk key ≡ i ∷ rest) × All (λ j. j < n) (i ∷ rest)

same_first : (i j : ℕ) (xs ys : List ℕ) → (i ∷ xs) ≡ (j ∷ ys) → i ≡ j
same_first i j xs ys e = cc

module _ {P : Type 0} (server : Peer P) (mem : Memcached server) (cache : Caching server mem)
    (walk : Bytes → List ℕ) (zlib : ZlibLibrary) where
  -- What a caller may ask for.
  abbrev pub Suits : Request → Type 0
  Suits (Request.put key value opts) = Storable mem.item_limit zlib key value opts
  Suits (Request.fetch key) = (check_key key ≡ returns tt) × (key ≢ [])
  Suits (Request.remove key) = (check_key key ≡ returns tt) × (key ≢ [])

  -- What a server may hold under a key: what was last set there, and only the key's first server.
  pub record Agrees (view : View) (j : ℕ) (key : Bytes) (e : ℕ × Bytes) : Type 0 where
    pub rest : List ℕ
    pub first : walk key ≡ j ∷ rest
    pub value : Bytes
    pub opts : Options
    pub suits : Storable mem.item_limit zlib key value opts
    pub entry : e ≡ (opts.flags, suits.sent)
    pub seen : view key ≡ some (value, opts.flags)

  abbrev pub Coheres : View → ℕ → P → Type 0
  Coheres view j s = (key : Bytes) (e : ℕ × Bytes) → mem.holds s key ≡ some e → Agrees view j key e

  -- And nothing under this key.
  abbrev pub CoheresWithout : Bytes → View → ℕ → P → Type 0
  CoheresWithout key view j s = Coheres view j s × (mem.holds s key ≡ none)

  pub Coheres-Loses :
      (view : View) (j : ℕ) (s s' : P)
      → Loses server mem cache zlib s s'
      → Coheres view j s
      → Coheres view j s'
  Coheres-Loses view j s s' loses h key e held = h key e (loses key e held)

  pub Loses-none :
      (key : Bytes) (s s' : P)
      → Loses server mem cache zlib s s'
      → mem.holds s key ≡ none
      → mem.holds s' key ≡ none
  Loses-none key s s' loses e = elim (Option-cases (mem.holds s' key)) [
    | inl gone ↦ gone
    | inr (held, there) ↦ cc (loses key held there)
  ]

  -- Only its first server holds a key.
  pub Coheres-elsewhere :
      (view : View) (i j : ℕ) (rest : List ℕ) (s : P) (key : Bytes)
      → walk key ≡ i ∷ rest
      → i ≢ j
      → Coheres view j s
      → mem.holds s key ≡ none
  Coheres-elsewhere view i j rest s key on_walk ne h = elim (Option-cases (mem.holds s key)) [
    | inl gone ↦ gone
    | inr (e, there) ↦
        let a = h key e there in absurd (ne (same_first i j rest a.rest (sym on_walk ∙ a.first)))
  ]

  -- A write under another key does not matter.
  Agrees-written :
      (view : View) (j : ℕ) (key other : Bytes) (entry : Option (Bytes × ℕ)) (e : ℕ × Bytes)
      → key ≢ other
      → Agrees view j other e
      → Agrees (written view key entry) j other e
  Agrees-written view j key other entry e ne a = record {
    rest = a.rest;
    first = a.first;
    value = a.value;
    opts = a.opts;
    suits = a.suits;
    entry = a.entry;
    seen = written_other view key other entry ne ∙ a.seen;
  }

  pub Coheres-written :
      (view : View) (j : ℕ) (s : P) (key : Bytes) (entry : Option (Bytes × ℕ))
      → ((e : ℕ × Bytes) → mem.holds s key ≡ some e → Agrees (written view key entry) j key e)
      → ((other : Bytes) (e : ℕ × Bytes)
          → key ≢ other
          → mem.holds s other ≡ some e
          → Agrees view j other e)
      → Coheres (written view key entry) j s
  Coheres-written view j s key entry at elsewhere other e held =
      elim (Bool-cases (same_bytes key other)) [
        | inl same ↦
            let eq : key ≡ other = same_bytes_eq key other same in
            subst (λ k. Agrees (written view key entry) j k e) eq
              (at e (ap (λ k. mem.holds s k) eq ∙ held))
        | inr differ ↦
            let ne : key ≢ other = λ eq. cc (same_bytes_refl key) in
            Agrees-written view j key other entry e ne (elsewhere other e ne held)
      ]

  -- A server without the key agrees, whatever was written there.
  pub CoheresWithout-written :
      (view : View) (j : ℕ) (s : P) (key : Bytes) (entry : Option (Bytes × ℕ))
      → CoheresWithout key view j s
      → Coheres (written view key entry) j s
  CoheresWithout-written view j s key entry (h, gone) =
      Coheres-written view j s key entry (λ e held. absurd cc) (λ other e ne held. h other e held)
