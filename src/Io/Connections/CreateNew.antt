-- ===== src/Io/Connections/CreateNew.antt =====
-- `create_new_connection_pool_t`: a new connection for each command, and nothing kept.
use Prim.Native.Nat.{zero-le}
use native.Mathlib.Nat.{le_refl}
use mcache_client.Prelude.{refl}
use mcache_client.Error.{Result}
use mcache_client.Io.Connections.{ConnectionPool}

module _ {C : Type 0} where
  unfoldable pub pick : Unit {0} → Result C → Unit {0} × Result C
  pick s made = (s, made)

  unfoldable pub push_back : C → Unit {0} → Unit {0}
  push_back c s = s

module _ (C : Type 0) where
  abbrev pub create_new_pool : ConnectionPool C
  create_new_pool = record {
    State = Unit {0};
    pick = pick;
    push_back = push_back;
    clear = λ s. s;
    size = λ s. 0;
    size-clear = λ s. refl;
    size-pick-le = λ s made. le_refl 0;
    size-push_back-le = λ c s. zero-le;
  }
