-- ===== src/Server/Proxy/Quarantine.antt =====
-- How long a dead server is left alone, and what marking it dead destroys.
use mcache_client.Prelude.{ℕ, ◌+◌, ◌-◌, ◌/◌, ◌%◌, ◌^◌, ◌≤◌, ◌<◌, ◌≡◌, refl, true, false, arith}
use mcache_client.Server.Proxy.{
  Config, Shared, interval_ticks, ticks_per_second, callable, handle_failure, lifespan,
}

-- A dead server whose lock is free, with the end of its quarantine.
abbrev quarantined : ℕ → ℕ → Shared
quarantined until fails = record { restoration = until; dead = true; fails = fails; locked = false }

handle_failure-quarantined :
    (cfg : Config) (t : ℕ) (s : Shared)
    → s.locked ≡ false
    → (handle_failure cfg t s).1 ≡ true
    → (handle_failure cfg t s).0 ≡ quarantined (t + interval_ticks cfg) ((s.fails + 1) % 2 ^ 32)
unfolding handle_failure
handle_failure-quarantined cfg t s free marked = ground arith

module _ (cfg : Config) (until fails now : ℕ) where
  callable-early :
      now < until → callable cfg now (quarantined until fails) ≡ (quarantined until fails, false)
  unfolding callable
  callable-early h = ground arith

  callable-late :
      until ≤ now
      → callable cfg now (quarantined until fails)
        ≡ (quarantined (now + interval_ticks cfg) fails, true)
  unfolding callable
  callable-late h = ground arith

-- Let the lock be free where a failure marks a server dead. From that moment until the restoration
-- interval has passed nobody may call it, and asking changes nothing. The first who asks after that may try it, and moves the end of the
-- quarantine one interval on from then: whoever asks before that end may not, and who asks after may.
pub callable-handle_failure :
    (cfg : Config) (t now later : ℕ) (s : Shared)
    → s.locked ≡ false
    → (handle_failure cfg t s).1 ≡ true
    → let dead = (handle_failure cfg t s).0 in
      let tried = (callable cfg now dead).0 in
      (now < t + interval_ticks cfg → callable cfg now dead ≡ (dead, false))
      × (t + interval_ticks cfg ≤ now
          → ((callable cfg now dead).1 ≡ true)
            × (later < now + interval_ticks cfg → callable cfg later tried ≡ (tried, false))
            × (now + interval_ticks cfg ≤ later → (callable cfg later tried).1 ≡ true))
callable-handle_failure cfg t now later s free marked =
    let fails = (s.fails + 1) % 2 ^ 32 in
    let until = t + interval_ticks cfg in
    let again = now + interval_ticks cfg in
    rw (handle_failure-quarantined cfg t s free marked) (
      callable-early cfg until fails now,
      λ h. rw (callable-late cfg until fails now h) (
        refl,
        callable-early cfg again fails later,
        λ k. rw (callable-late cfg again fails later k),
      ),
    )

-- The lifespan of a server that was marked dead at `t`, after the clock's first moment and with the
-- lock free, is the whole seconds since then, and none for
-- a clock that has gone back behind `t`.
pub lifespan-handle_failure :
    (cfg : Config) (t now : ℕ) (s : Shared)
    → s.locked ≡ false
    → 0 < t
    → (handle_failure cfg t s).1 ≡ true
    → lifespan cfg now (handle_failure cfg t s).0 ≡ (now - t) / ticks_per_second
unfolding lifespan
lifespan-handle_failure cfg t now s free pos marked =
    rw (handle_failure-quarantined cfg t s free marked) (ground arith)
