-- ===== src/Server/Lock/Threads.antt =====
-- Threads that reach for one lock through `scope_guard_t`, in any interleaving. A guard is made, tries
-- the lock, and on its destruction unlocks it, also where the try had failed.
use mcache_client.Prelude.{ℕ, ◌≡◌, ◌≢◌, refl, Bool, true, false, arith, ◌==◌, if◌then◌else◌}
use mcache_client.Server.Lock.{try_lock, unlock}

-- Where a thread is: in front of the guard, in the section with the lock taken, or on the way out
-- because `try_lock` failed.
pub data Place : Type 0 where
  outside inside refused : Place

pub record State : Type 0 where
  pub locked : Bool
  pub place : ℕ → Place

abbrev pub initial : State
initial = record { locked = false; place = λ t. Place.outside }

abbrev pub move : State → ℕ → Place → Bool → State
move s t p locked = record { locked = locked; place = λ u. if u == t then p else s.place u }

abbrev entered : Bool → Place
entered true = Place.inside
entered false = Place.refused

-- One step of thread `t`: `guard.try_lock()`, or the destructor of the guard.
pub data Step (s : State) : State → Type 0 where
  tries :
      (t : ℕ)
      → s.place t ≡ Place.outside
      → Step s (move s t (entered (try_lock s.locked).1) (try_lock s.locked).0)
  destroys : (t : ℕ) → s.place t ≢ Place.outside → Step s (move s t Place.outside (unlock s.locked))

pub data Reach (s : State) : State → Type 0 where
  here : Reach s s
  next : {t u : State} → Reach s t → Step t u → Reach s u

-- The guard does not keep the section exclusive. Of any two threads, let the first be inside and the
-- second be refused: the second's guard frees the lock, and the second then gets in beside the first.
pub guard_not_exclusive :
    (a b : ℕ)
    → a ≢ b
    → (s : State) × Reach initial s × (s.place a ≡ Place.inside) × (s.place b ≡ Place.inside)
unfolding try_lock unlock
guard_not_exclusive a b ne =
    let s1 = move initial a Place.inside true in
    let s2 = move s1 b Place.refused true in
    let s3 = move s2 b Place.outside false in
    let s4 = move s3 b Place.inside true in
    let enter : Step initial s1 = tries a refl in
    let refuse : Step s1 s2 = tries b (ground arith) in
    let leave : Step s2 s3 = destroys b (ground arith) in
    let join : Step s3 s4 = tries b (ground arith) in
    (s4, next (next (next (next here enter) refuse) leave) join, ground arith, ground arith)
