-- ===== src/Io/Connections.antt =====
-- include/mcache/io/connections.h: the three pools of connections behind a server proxy. Pointers to
-- connections are values of any type and an empty pointer is `none`; what the constructor of a new
-- connection gives or throws is an argument of `pick`. Each call of a locking pool holds the pool's
-- mutex from its first access to its last, so it is one step here.
pub mod CreateNew
pub mod Single
pub mod Caching
use mcache_client.Prelude.{ℕ, suc, ◌≤◌, ◌≡◌}
use mcache_client.Error.{Result}

-- What a server proxy uses of its pool, and what it may rely on.
pub record ConnectionPool (C : Type 0) : Type 1 where
  pub State : Type 0
  pub pick : State → Result C → State × Result C
  pub push_back : C → State → State
  pub clear : State → State
  pub size : State → ℕ
  pub size-clear : (s : State) → size (clear s) ≡ 0
  pub size-pick-le : (s : State) (made : Result C) → size (pick s made).0 ≤ size s
  pub size-push_back-le : (c : C) (s : State) → size (push_back c s) ≤ suc (size s)
