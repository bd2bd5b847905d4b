-- ===== src/Server/Proxy/Threads.antt =====
-- include/mcache/server-proxy.h: the threads or processes that share a server's data, in any
-- interleaving. Each step is one access of the source to the shared data or to the clock.
pub mod Alone
pub mod Quarantine
pub mod Races
use mcache_client.Prelude.{
  ℕ, ◌+◌, ◌%◌, ◌^◌, ◌≤◌, ◌<◌, ◌≡◌, ◌≢◌, refl, subst, sym, Bool, true, false, ◌==◌, ltb, leb,
  if◌then◌else◌, Bool-cases, inl, inr, arith,
}
use mcache_client.Server.Lock.{try_lock, unlock}
use mcache_client.Server.Proxy.{Config, Shared, new_shared, interval_ticks}

-- What a thread does next.
pub data Place : Type 0 where
  -- `callable`: load `dead`; read the clock; compare `restoration`; try the lock; store `restoration`;
  -- unlock, and say if the server may be called.
  idle reads : Place
  compares tries enlarges : ℕ → Place
  leaves : Bool → Place
  -- `send`: the exchange; store `dead`; store `fails`.
  talks revives resets : Place
  -- Its handler: try the lock; count the failure; read the clock; store `restoration`; store `dead`;
  -- unlock.
  handles counts ends : Place
  sets : ℕ → Place
  marks unlocks : Place

pub record State : Type 0 where
  pub shared : Shared
  pub clock : ℕ
  pub place : ℕ → Place

abbrev pub initial : State
initial = record { shared = new_shared; clock = 0; place = λ t. Place.idle }

abbrev pub move : State → ℕ → Place → Shared → State
move s t p shared = record {
  shared = shared;
  clock = s.clock;
  place = λ u. if u == t then p else s.place u;
}

module _ (cfg : Config) where
  abbrev pub quarantine : Shared → ℕ → Shared
  quarantine sh now = record sh { restoration = now + interval_ticks cfg }

  abbrev pub failures : Shared → ℕ
  failures sh = (sh.fails + 1) % 2 ^ 32

  -- The caller of `callable` goes on with `send` if he may.
  pub data Step (s : State) : State → Type 0 where
    waits : (n : ℕ) → Step s (record s { clock = s.clock + n })
    asks :
        (t : ℕ)
        → s.place t ≡ Place.idle
        → Step s (move s t (if s.shared.dead then Place.reads else Place.talks) s.shared)
    reads : (t : ℕ) → s.place t ≡ Place.reads → Step s (move s t (Place.compares s.clock) s.shared)
    compares :
        (t now : ℕ)
        → s.place t ≡ Place.compares now
        → Step s (
            move s t
              (if ltb now s.shared.restoration then Place.idle else Place.tries now)
              s.shared)
    tries :
        (t now : ℕ)
        → s.place t ≡ Place.tries now
        → Step s (
            move s t
              (if (try_lock s.shared.locked).1 then Place.enlarges now else Place.leaves false)
              (record s.shared { locked = (try_lock s.shared.locked).0 }))
    enlarges :
        (t now : ℕ)
        → s.place t ≡ Place.enlarges now
        → Step s (move s t (Place.leaves true) (quarantine s.shared now))
    leaves :
        (t : ℕ) (b : Bool)
        → s.place t ≡ Place.leaves b
        → Step s (
            move s t
              (if b then Place.talks else Place.idle)
              (record s.shared { locked = unlock s.shared.locked }))
    answers : (t : ℕ) → s.place t ≡ Place.talks → Step s (move s t Place.revives s.shared)
    revives :
        (t : ℕ)
        → s.place t ≡ Place.revives
        → Step s (move s t Place.resets (record s.shared { dead = false }))
    resets :
        (t : ℕ)
        → s.place t ≡ Place.resets
        → Step s (move s t Place.idle (record s.shared { fails = 0 }))
    breaks : (t : ℕ) → s.place t ≡ Place.talks → Step s (move s t Place.handles s.shared)
    handles :
        (t : ℕ)
        → s.place t ≡ Place.handles
        → Step s (
            move s t
              (if (try_lock s.shared.locked).1 then Place.counts else Place.unlocks)
              (record s.shared { locked = (try_lock s.shared.locked).0 }))
    counts :
        (t : ℕ)
        → s.place t ≡ Place.counts
        → Step s (
            move s t
              (if leb cfg.fail_limit (failures s.shared) then Place.ends else Place.unlocks)
              (record s.shared { fails = failures s.shared }))
    ends : (t : ℕ) → s.place t ≡ Place.ends → Step s (move s t (Place.sets s.clock) s.shared)
    sets :
        (t now : ℕ)
        → s.place t ≡ Place.sets now
        → Step s (move s t Place.marks (quarantine s.shared now))
    marks :
        (t : ℕ)
        → s.place t ≡ Place.marks
        → Step s (move s t Place.unlocks (record s.shared { dead = true }))
    unlocks :
        (t : ℕ)
        → s.place t ≡ Place.unlocks
        → Step s (move s t Place.idle (record s.shared { locked = unlock s.shared.locked }))

  pub data Reach (s : State) : State → Type 0 where
    here : Reach s s
    next : {t u : State} → Reach s t → Step t u → Reach s u
