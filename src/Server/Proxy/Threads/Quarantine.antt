-- ===== src/Server/Proxy/Threads/Quarantine.antt =====
-- include/mcache/server-proxy.h: the order in which `send` and `callable` store what they share.
use mcache_client.Prelude.{
  ℕ, ◌+◌, ◌≤◌, ◌≡◌, refl, subst, sym, ◌∙◌, Bool, true, false, ◌==◌, ltb, leb, if◌then◌else◌,
  Bool-cases, inl, inr, arith,
}
use mcache_client.Server.Lock.{try_lock, unlock}
use mcache_client.Server.Proxy.{Config, Shared, interval_ticks}
use mcache_client.Server.Proxy.Threads.{
  Place, State, initial, move, quarantine, failures, Step, Reach,
}

module _ (cfg : Config) where
  -- The quarantine ends an interval after some moment that is past.
  abbrev pub Ends : ℕ → Shared → Type 0
  Ends clock sh = (now : ℕ) × (now ≤ clock) × (sh.restoration ≡ now + interval_ticks cfg)

  -- What a thread knows at a place.
  abbrev Known : ℕ → Shared → Place → Type 0
  Known clock sh (Place.compares now) = now ≤ clock
  Known clock sh (Place.tries now) = now ≤ clock
  Known clock sh (Place.enlarges now) = now ≤ clock
  Known clock sh (Place.sets now) = now ≤ clock
  Known clock sh Place.marks = Ends clock sh
  Known clock sh _ = Unit {0}

  record IsTimely (s : State) : Type 0 where
    dead : s.shared.dead ≡ true → Ends s.clock s.shared
    known : (t : ℕ) → Known s.clock s.shared (s.place t)

  Known-keeps :
      (clock : ℕ) (sh sh' : Shared) (p : Place)
      → (Ends clock sh → Ends clock sh')
      → Known clock sh p
      → Known clock sh' p
  Known-keeps clock sh sh' (Place.compares now) keeps k = k
  Known-keeps clock sh sh' (Place.tries now) keeps k = k
  Known-keeps clock sh sh' (Place.enlarges now) keeps k = k
  Known-keeps clock sh sh' (Place.sets now) keeps k = k
  Known-keeps clock sh sh' Place.marks keeps k = keeps k
  Known-keeps clock sh sh' _ keeps k = tt

  Known-waits : (clock n : ℕ) (sh : Shared) (p : Place) → Known clock sh p → Known (clock + n) sh p
  Known-waits clock n sh (Place.compares now) k = omega arith
  Known-waits clock n sh (Place.tries now) k = omega arith
  Known-waits clock n sh (Place.enlarges now) k = omega arith
  Known-waits clock n sh (Place.sets now) k = omega arith
  Known-waits clock n sh Place.marks (now, past, e) = (now, omega arith, e)
  Known-waits clock n sh _ k = tt

  -- A step of one thread.
  move-IsTimely :
      (s : State) (t : ℕ) (p : Place) (sh : Shared)
      → IsTimely s
      → (Ends s.clock s.shared → Ends s.clock sh)
      → (sh.dead ≡ true → Ends s.clock sh)
      → Known s.clock sh p
      → IsTimely (move s t p sh)
  move-IsTimely s t p sh v keeps dead k = record {
    dead = dead;
    known = λ u. elim (Bool-cases (u == t)) [
      | inl same ↦ rw same k
      | inr other ↦ rw other (Known-keeps s.clock s.shared sh (s.place u) keeps (v.known u))
    ];
  }

  -- One that leaves `restoration` and `dead` as they are.
  quiet-IsTimely :
      (s : State) (t : ℕ) (p : Place) (sh : Shared)
      → IsTimely s
      → sh.restoration ≡ s.shared.restoration
      → sh.dead ≡ s.shared.dead
      → Known s.clock sh p
      → IsTimely (move s t p sh)
  quiet-IsTimely s t p sh v same same' k =
      move-IsTimely s t p sh v (λ (now, past, e). (now, past, same ∙ e))
        (λ d. let (now, past, e) = v.dead (sym same' ∙ d) in (now, past, same ∙ e)) k

  if-Known :
      (clock : ℕ) (sh : Shared) (b : Bool) (p q : Place)
      → Known clock sh p
      → Known clock sh q
      → Known clock sh (if b then p else q)
  if-Known clock sh true p q k l = k
  if-Known clock sh false p q k l = l

  Known-at : (s : State) (t : ℕ) (p : Place) → IsTimely s → s.place t ≡ p → Known s.clock s.shared p
  Known-at s t p v e = subst (Known s.clock s.shared) e (v.known t)

  set_by : (clock now : ℕ) (sh : Shared) → now ≤ clock → Ends clock (quarantine cfg sh now)
  set_by clock now sh past = (now, past, refl)

  step-IsTimely : (s u : State) → Step cfg s u → IsTimely s → IsTimely u
  step-IsTimely s _ (Step.waits n) v = record {
    dead = λ d. let (now, past, e) = v.dead d in (now, omega arith, e);
    known = λ t. Known-waits s.clock n s.shared (s.place t) (v.known t);
  }
  step-IsTimely s _ (Step.asks t at) v =
      quiet-IsTimely s t _ s.shared v refl refl (if-Known s.clock s.shared s.shared.dead _ _ tt tt)
  step-IsTimely s _ (Step.reads t at) v =
      quiet-IsTimely s t (Place.compares s.clock) s.shared v refl refl (omega arith)
  step-IsTimely s _ (Step.compares t now at) v = quiet-IsTimely s t _ s.shared v refl refl (
      if-Known s.clock s.shared (ltb now s.shared.restoration) Place.idle (Place.tries now) tt
        (Known-at s t (Place.compares now) v at))
  step-IsTimely s _ (Step.tries t now at) v =
      let sh : Shared = record s.shared { locked = (try_lock s.shared.locked).0 } in
      quiet-IsTimely s t _ sh v refl refl (
        if-Known s.clock sh (try_lock s.shared.locked).1 (Place.enlarges now) (Place.leaves false)
          (Known-at s t (Place.tries now) v at) tt)
  step-IsTimely s _ (Step.enlarges t now at) v =
      let set = set_by s.clock now s.shared (Known-at s t (Place.enlarges now) v at) in
      move-IsTimely s t (Place.leaves true) (quarantine cfg s.shared now) v (λ k. set) (λ d. set) tt
  step-IsTimely s _ (Step.leaves t b at) v =
      let sh : Shared = record s.shared { locked = unlock s.shared.locked } in
      quiet-IsTimely s t _ sh v refl refl (if-Known s.clock sh b Place.talks Place.idle tt tt)
  step-IsTimely s _ (Step.answers t at) v = quiet-IsTimely s t Place.revives s.shared v refl refl tt
  step-IsTimely s _ (Step.revives t at) v =
      move-IsTimely s t Place.resets (record s.shared { dead = false }) v (λ k. k) (λ d. absurd cc)
        tt
  step-IsTimely s _ (Step.resets t at) v =
      quiet-IsTimely s t Place.idle (record s.shared { fails = 0 }) v refl refl tt
  step-IsTimely s _ (Step.breaks t at) v = quiet-IsTimely s t Place.handles s.shared v refl refl tt
  step-IsTimely s _ (Step.handles t at) v =
      let sh : Shared = record s.shared { locked = (try_lock s.shared.locked).0 } in
      quiet-IsTimely s t _ sh v refl refl
        (if-Known s.clock sh (try_lock s.shared.locked).1 Place.counts Place.unlocks tt tt)
  step-IsTimely s _ (Step.counts t at) v =
      let sh : Shared = record s.shared { fails = failures cfg s.shared } in
      quiet-IsTimely s t _ sh v refl refl (
        if-Known s.clock sh (leb cfg.fail_limit (failures cfg s.shared)) Place.ends Place.unlocks tt
          tt)
  step-IsTimely s _ (Step.ends t at) v =
      quiet-IsTimely s t (Place.sets s.clock) s.shared v refl refl (omega arith)
  step-IsTimely s _ (Step.sets t now at) v =
      let set = set_by s.clock now s.shared (Known-at s t (Place.sets now) v at) in
      move-IsTimely s t Place.marks (quarantine cfg s.shared now) v (λ k. set) (λ d. set) set
  step-IsTimely s _ (Step.marks t at) v =
      let set = Known-at s t Place.marks v at in
      move-IsTimely s t Place.unlocks (record s.shared { dead = true }) v (λ k. k) (λ d. set) tt
  step-IsTimely s _ (Step.unlocks t at) v = quiet-IsTimely s t Place.idle _ v refl refl tt

  reach-IsTimely : (s : State) → Reach cfg initial s → IsTimely s
  reach-IsTimely s Reach.here = record { dead = λ d. absurd cc; known = λ t. tt }
  reach-IsTimely s (Reach.next r step) = step-IsTimely _ s step (reach-IsTimely _ r)

  -- Whatever the threads do, in whatever order, from the initial state: where the server is marked
  -- dead, the end of its quarantine is set, to one interval behind some moment that is past.
  pub reach_dead :
      (s : State)
      → Reach cfg initial s
      → s.shared.dead ≡ true
      → (now : ℕ) × (now ≤ s.clock) × (s.shared.restoration ≡ now + interval_ticks cfg)
  reach_dead s r d = (reach-IsTimely s r).dead d
