-- ===== src/Io/Connections/Single.antt =====
-- `single_connection_pool_t`: room for one connection.
use mcache_client.Prelude.{ℕ, suc, ◌≤◌, ◌≡◌, refl, Option, none, some, arith}
use mcache_client.Error.{Result, returns}
use mcache_client.Io.Connections.{ConnectionPool}

module _ {C : Type 0} where
  -- The kept connection leaves the pool; without one a new connection is made.
  unfoldable pub pick : Option C → Result C → Option C × Result C
  pick none made = (none, made)
  pick (some c) made = (none, returns c)

  -- A connection that is kept already is dropped.
  unfoldable pub push_back : C → Option C → Option C
  push_back c s = some c

  unfoldable pub clear : Option C → Option C
  clear s = none

  unfoldable pub size : Option C → ℕ
  size none = 0
  size (some c) = 1

  pub size-clear : (s : Option C) → size (clear s) ≡ 0
  unfolding size clear
  size-clear s = refl

  pub size-pick-le : (s : Option C) (made : Result C) → size (pick s made).0 ≤ size s
  unfolding size pick
  size-pick-le none made = omega arith
  size-pick-le (some c) made = omega arith

  pub size-push_back-le : (c : C) (s : Option C) → size (push_back c s) ≤ suc (size s)
  unfolding size push_back
  size-push_back-le c s = omega arith

module _ (C : Type 0) where
  abbrev pub single_pool : ConnectionPool C
  single_pool = record {
    State = Option C;
    pick = pick;
    push_back = push_back;
    clear = clear;
    size = size;
    size-clear = size-clear;
    size-pick-le = size-pick-le;
    size-push_back-le = size-push_back-le;
  }
