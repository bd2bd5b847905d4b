-- ===== src/Server/Proxy/Threads/Races.antt =====
-- include/mcache/server-proxy.h: what `send` of one thread can do between two stores of another's.
use mcache_client.Prelude.{ℕ, ◌≤◌, ◌≡◌, ◌≢◌, refl, true, false, leb, if◌then◌else◌, arith}
use mcache_client.Server.Lock.{try_lock, unlock}
use mcache_client.Server.Proxy.{Config, Shared, new_shared}
use mcache_client.Server.Proxy.Threads.{Place, State, initial, move, quarantine, Step, Reach}

module _ (cfg : Config) where
  -- Any two different threads can leave a server marked dead with no failure counted, and be done with
  -- it, if one failure is enough for the mark.
  pub dead_without_failures :
      (a b : ℕ)
      → a ≢ b
      → cfg.fail_limit ≤ 1
      → (s : State) × Reach cfg initial s
        × (s.shared.dead ≡ true)
        × (s.shared.fails ≡ 0)
        × (s.place a ≡ Place.idle)
        × (s.place b ≡ Place.idle)
  unfolding try_lock unlock
  dead_without_failures a b ne one =
      let s1 = move initial a Place.talks new_shared in
      let s2 = move s1 b Place.talks new_shared in
      let s3 = move s2 b Place.revives new_shared in
      let s4 = move s3 b Place.resets new_shared in
      let s5 = move s4 a Place.handles new_shared in
      let s6 = move s5 a Place.counts (record new_shared { locked = true }) in
      let sh7 : Shared = record { restoration = 0; dead = false; fails = 1; locked = true } in
      let s7 = move s6 a Place.ends sh7 in
      let s8 = move s7 a (Place.sets 0) sh7 in
      let s9 = move s8 a Place.marks (quarantine cfg sh7 0) in
      let s10 = move s9 a Place.unlocks (record (quarantine cfg sh7 0) { dead = true }) in
      let sh11 : Shared = record (quarantine cfg sh7 0) { dead = true; locked = false } in
      let s11 = move s10 a Place.idle sh11 in
      let s12 = move s11 b Place.idle (record sh11 { fails = 0 }) in
      let step1 : Step cfg initial s1 = Step.asks a refl in
      let step2 : Step cfg s1 s2 = Step.asks b (ground arith) in
      let step3 : Step cfg s2 s3 = Step.answers b (ground arith) in
      let step4 : Step cfg s3 s4 = Step.revives b (ground arith) in
      let step5 : Step cfg s4 s5 = Step.breaks a (ground arith) in
      let step6 : Step cfg s5 s6 = Step.handles a (ground arith) in
      let limit : leb cfg.fail_limit 1 ≡ true = ground arith in
      let raw : Step cfg s6
          (move s6 a (if leb cfg.fail_limit 1 then Place.ends else Place.unlocks) sh7) =
        Step.counts a (ground arith) in
      let step7 : Step cfg s6 s7 = rw limit at raw in
      let step8 : Step cfg s7 s8 = Step.ends a (ground arith) in
      let step9 : Step cfg s8 s9 = Step.sets a 0 (ground arith) in
      let step10 : Step cfg s9 s10 = Step.marks a (ground arith) in
      let step11 : Step cfg s10 s11 = Step.unlocks a (ground arith) in
      let step12 : Step cfg s11 s12 = Step.resets b (ground arith) in
      let r4 : Reach cfg initial s4 =
        Reach.next (Reach.next (Reach.next (Reach.next Reach.here step1) step2) step3) step4 in
      let r8 : Reach cfg initial s8 =
        Reach.next (Reach.next (Reach.next (Reach.next r4 step5) step6) step7) step8 in
      (
        s12,
        Reach.next (Reach.next (Reach.next (Reach.next r8 step9) step10) step11) step12,
        refl,
        refl,
        ground arith,
        ground arith,
      )
