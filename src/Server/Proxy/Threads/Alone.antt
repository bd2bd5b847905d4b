-- ===== src/Server/Proxy/Threads/Alone.antt =====
-- include/mcache/server-proxy.h: what the single steps of a thread that nobody disturbs come to.
use mcache_client.Prelude.{
  ℕ, ◌+◌, ◌≡◌, ◌≢◌, refl, subst, ◌∙◌, Bool, true, false, not, ◌==◌, ltb, leb, if◌then◌else◌, arith,
}
use mcache_client.Server.Lock.{try_lock, unlock}
use mcache_client.Server.Proxy.{
  Config, Shared, interval_ticks, callable, callable_guarded, handle_failure, note_failure, revive,
}
use mcache_client.Server.Proxy.Threads.{Place, State, move, quarantine, failures, Step, Reach}

module _ (cfg : Config) where
  -- From one state thread `t` alone gets to another, at the same time, with this shared data.
  pub record Alone (t : ℕ) (s : State) (p : Place) (sh : Shared) : Type 0 where
    pub end : State
    pub path : Reach cfg s end
    pub clock : end.clock ≡ s.clock
    pub shared : end.shared ≡ sh
    pub place : end.place t ≡ p
    pub others : (v : ℕ) → v ≢ t → end.place v ≡ s.place v

  stays : (t : ℕ) (s : State) (p : Place) → s.place t ≡ p → Alone t s p s.shared
  stays t s p e = record {
    end = s;
    path = Reach.here;
    clock = refl;
    shared = refl;
    place = e;
    others = λ v ne. refl;
  }

  Reach-first : (s u w : State) → Step cfg s u → Reach cfg u w → Reach cfg s w
  Reach-first s u w step Reach.here = Reach.next Reach.here step
  Reach-first s u w step (Reach.next r last) = Reach.next (Reach-first s u _ step r) last

  -- One step first.
  first :
      (t : ℕ) (s : State) (q p : Place) (sh' sh : Shared)
      → Step cfg s (move s t q sh')
      → (((move s t q sh').place t ≡ q) → Alone t (move s t q sh') p sh)
      → Alone t s p sh
  first t s q p sh' sh step later =
      let a = later (ground arith) in
      record {
        end = a.end;
        path = Reach-first s (move s t q sh') a.end step a.path;
        clock = a.clock;
        shared = a.shared;
        place = a.place;
        others =
            λ v ne. a.others v ne ∙ (let other : (v == t) ≡ false = ground arith in rw other refl);
      }

  last : (t : ℕ) (s : State) (q : Place) (sh : Shared) → Step cfg s (move s t q sh) → Alone t s q sh
  last t s q sh step = first t s q q sh sh step (λ at. stays t (move s t q sh) q at)

  -- Where `callable` leaves a thread.
  abbrev pub behind : Bool → Place
  behind called = if called then Place.talks else Place.idle

  guarded_from :
      (t now : ℕ) (s : State) (b : Bool)
      → Step cfg s (
          move s t
            (if not b then Place.enlarges now else Place.leaves false)
            (record s.shared { locked = true }))
      → let result = callable_guarded cfg now (record s.shared { locked = true }) (not b) in
        Alone t s (behind result.1) result.0
  unfolding callable_guarded unlock
  guarded_from t now s true step =
      let sh = λ (locked : Bool). record s.shared { locked = locked } in
      first t s (Place.leaves false) Place.idle (sh true) (sh false) step
        (λ at'. last t _ Place.idle (sh false) (Step.leaves t false at'))
  guarded_from t now s false step =
      let sh = λ (locked : Bool). record s.shared { locked = locked } in
      first t s (Place.enlarges now) Place.talks (sh true) (quarantine cfg (sh false) now) step
        (λ at'.
          first t _ (Place.leaves true) Place.talks (quarantine cfg (sh true) now)
            (quarantine cfg (sh false) now) (Step.enlarges t now at')
            (λ at''.
              last t _ Place.talks (quarantine cfg (sh false) now) (Step.leaves t true at'')))

  guarded :
      (t now : ℕ) (s : State) (b : Bool)
      → s.shared.locked ≡ b
      → s.place t ≡ Place.tries now
      → let result = callable_guarded cfg now (record s.shared { locked = true }) (not b) in
        Alone t s (behind result.1) result.0
  unfolding callable_guarded try_lock unlock
  guarded t now s b e at =
      let sh = λ (locked : Bool). record s.shared { locked = locked } in
      let step : Step cfg s
          (move s t (if not b then Place.enlarges now else Place.leaves false) (sh true)) =
        subst
          (λ (c : Bool).
            Step cfg s
              (move s t (if not c then Place.enlarges now else Place.leaves false) (sh true)))
          e (Step.tries t now at) in
      guarded_from t now s b step

  -- The part behind the first test, and behind the second.
  abbrev tested : ℕ → Shared → Bool → Shared × Bool
  tested now sh early =
      if early
      then (sh, false)
      else callable_guarded cfg now (record sh { locked = true }) (not sh.locked)

  compared :
      (t now : ℕ) (s : State) (early : Bool)
      → Step cfg s (move s t (if early then Place.idle else Place.tries now) s.shared)
      → let result = tested now s.shared early in Alone t s (behind result.1) result.0
  compared t now s true step = last t s Place.idle s.shared step
  compared t now s false step =
      let result = tested now s.shared false in
      first t s (Place.tries now) (behind result.1) s.shared result.0 step
        (λ at. guarded t now (move s t (Place.tries now) s.shared) s.shared.locked refl at)

  asked :
      (t : ℕ) (s : State) (dead : Bool)
      → Step cfg s (move s t (if dead then Place.reads else Place.talks) s.shared)
      → let result =
          if not dead
          then (s.shared, true)
          else tested s.clock s.shared (ltb s.clock s.shared.restoration) in
        Alone t s (behind result.1) result.0
  asked t s false step = last t s Place.talks s.shared step
  asked t s true step =
      let now = s.clock in
      let sh = s.shared in
      let result = tested now sh (ltb now sh.restoration) in
      let p = behind result.1 in
      first t s Place.reads p sh result.0 step (λ at.
        first t (move s t Place.reads sh) (Place.compares now) p sh result.0 (Step.reads t at)
          (λ at'.
            compared t now (move (move s t Place.reads sh) t (Place.compares now) sh)
              (ltb now sh.restoration) (Step.compares t now at')))

  -- The handler's steps, by whether the lock was free and whether the count has reached the limit.
  abbrev noted : ℕ → Shared → Bool → Shared × Bool
  noted now sh reached =
      if reached
      then (
        record sh { fails = failures cfg sh; restoration = now + interval_ticks cfg; dead = true },
        true,
      )
      else (record sh { fails = failures cfg sh }, false)

  counted :
      (t : ℕ) (s : State) (reached : Bool)
      → Step cfg s (
          move s t
            (if reached then Place.ends else Place.unlocks)
            (record s.shared { fails = failures cfg s.shared }))
      → Alone t s Place.idle (record (noted s.clock s.shared reached).0 { locked = false })
  unfolding unlock
  counted t s false step =
      let sh : Shared = record s.shared { fails = failures cfg s.shared } in
      first t s Place.unlocks Place.idle sh (record sh { locked = false }) step
        (λ at. last t _ Place.idle (record sh { locked = false }) (Step.unlocks t at))
  counted t s true step =
      let sh : Shared = record s.shared { fails = failures cfg s.shared } in
      let sh' = quarantine cfg sh s.clock in
      let end : Shared = record sh' { dead = true; locked = false } in
      first t s Place.ends Place.idle sh end step (λ at1.
        first t _ (Place.sets s.clock) Place.idle sh end (Step.ends t at1) (λ at2.
          first t _ Place.marks Place.idle sh' end (Step.sets t s.clock at2) (λ at3.
            first t _ Place.unlocks Place.idle (record sh' { dead = true }) end (Step.marks t at3)
              (λ at4. last t _ Place.idle end (Step.unlocks t at4)))))

  handled :
      (t : ℕ) (s : State) (locked : Bool)
      → Step cfg s (
          move s t
            (if not locked then Place.counts else Place.unlocks)
            (record s.shared { locked = true }))
      → let held = record s.shared { locked = true } in
        let done = if not locked then note_failure cfg s.clock held else (held, false) in
        Alone t s Place.idle (record done.0 { locked = false })
  unfolding unlock note_failure
  handled t s true step =
      let held : Shared = record s.shared { locked = true } in
      first t s Place.unlocks Place.idle held (record held { locked = false }) step
        (λ at. last t _ Place.idle (record held { locked = false }) (Step.unlocks t at))
  handled t s false step =
      let held : Shared = record s.shared { locked = true } in
      let reached = leb cfg.fail_limit (failures cfg held) in
      first t s Place.counts Place.idle held
        (record (noted s.clock held reached).0 { locked = false }) step
        (λ at. counted t (move s t Place.counts held) reached (Step.counts t at))

  -- A thread that nobody disturbs does, step by step, what `callable`, a response in `send` and its
  -- handler do at one blow: from the same shared data, at the same time, it comes to the same shared
  -- data, and goes on to `send` if and only if `callable` lets it; no other thread is moved.
  pub alone-callable :
      (t : ℕ) (s : State)
      → (s.place t ≡ Place.idle
          → let result = callable cfg s.clock s.shared in Alone t s (behind result.1) result.0)
        × (s.place t ≡ Place.revives → Alone t s Place.idle (revive s.shared))
        × (s.place t ≡ Place.handles → Alone t s Place.idle (handle_failure cfg s.clock s.shared).0)
  unfolding callable revive handle_failure try_lock unlock
  alone-callable t s = (
    (λ at. asked t s s.shared.dead (Step.asks t at)),
    (λ at.
        let sh : Shared = record s.shared { dead = false } in
        first t s Place.resets Place.idle sh (record sh { fails = 0 }) (Step.revives t at)
          (λ at'. last t _ Place.idle (record sh { fails = 0 }) (Step.resets t at'))),
    (λ at. handled t s s.shared.locked (Step.handles t at)),
  )
