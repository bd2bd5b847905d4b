-- ===== src/Io/Connections/Caching.antt =====
-- `lock::caching_connection_pool_t`: a stack of at most `max_connections_in_pool` connections. (The
-- variant over `tbb::concurrent_bounded_queue` is built only where that library is found.)
use mcache_client.Prelude.{
  ℕ, suc, ◌≤◌, ◌<◌, ◌≡◌, refl, List, [], ◌∷◌, arith, ltb, if◌then◌else◌, length,
}
use mcache_client.Error.{Result, returns}
use mcache_client.Io.Connections.{ConnectionPool}

-- A call on the pool by any thread.
pub data Call (C : Type 0) : Type 0 where
  picks : Result C → Call C
  returns_back : C → Call C
  clears : Call C

module _ {C : Type 0} where
  unfoldable pub pick : List C → Result C → List C × Result C
  pick [] made = ([], made)
  pick (c ∷ rest) made = (rest, returns c)

  -- A full pool lets the connection go.
  unfoldable pub push_back : ℕ → C → List C → List C
  push_back max c stack = if ltb (length stack) max then c ∷ stack else stack

  unfoldable pub clear : List C → List C
  clear [] = []
  clear (c ∷ rest) = clear rest

  unfoldable pub size : List C → ℕ
  size stack = length stack

  pub size-clear : (s : List C) → size (clear s) ≡ 0
  unfolding size clear
  size-clear [] = refl
  size-clear (c ∷ rest) = size-clear rest

  pub size-pick-le : (s : List C) (made : Result C) → size (pick s made).0 ≤ size s
  unfolding size pick
  size-pick-le [] made = omega arith
  size-pick-le (c ∷ rest) made = omega arith

  pub size-push_back-le : (max : ℕ) (c : C) (s : List C) → size (push_back max c s) ≤ suc (size s)
  unfolding size push_back
  size-push_back-le max c s = ground arith

  unfoldable pub step : ℕ → Call C → List C → List C
  step max (picks made) s = (pick s made).0
  step max (returns_back c) s = push_back max c s
  step max clears s = clear s

  unfoldable pub run : ℕ → List (Call C) → List C → List C
  run max [] s = s
  run max (c ∷ cs) s = run max cs (step max c s)

  step_bounded : (max : ℕ) (c : Call C) (s : List C) → size s ≤ max → size (step max c s) ≤ max
  unfolding step push_back size
  step_bounded max (picks made) s h =
      let le : length (pick s made).0 ≤ length s = size-pick-le s made in omega arith
  step_bounded max (returns_back c) s h = ground arith
  step_bounded max clears s h = let e : length (clear s) ≡ 0 = size-clear s in omega arith

  -- Whatever calls are made, in whatever order, a pool that started empty never keeps more
  -- connections than `max_connections_in_pool`.
  pub run_bounded :
      (max : ℕ) (cs : List (Call C)) (s : List C) → size s ≤ max → size (run max cs s) ≤ max
  unfolding run
  run_bounded max [] s h = h
  run_bounded max (c ∷ cs) s h = run_bounded max cs (step max c s) (step_bounded max c s h)

  -- A connection that is given back to a pool with room is the next that a pick takes out, and the
  -- pool is then as it was; from a full pool the next pick does not see it.
  pub pick-push_back :
      (max : ℕ) (c : C) (s : List C) (made : Result C)
      → (length s < max → pick (push_back max c s) made ≡ (s, returns c))
        × (max ≤ length s → pick (push_back max c s) made ≡ pick s made)
  unfolding pick push_back
  pick-push_back max c s made = (λ h. ground arith, λ h. ground arith)

module _ (C : Type 0) (max : ℕ) where
  abbrev pub caching_pool : ConnectionPool C
  caching_pool = record {
    State = List C;
    pick = pick;
    push_back = push_back max;
    clear = clear;
    size = size;
    size-clear = size-clear;
    size-pick-le = size-pick-le;
    size-push_back-le = size-push_back-le max;
  }
