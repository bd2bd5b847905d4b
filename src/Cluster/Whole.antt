-- ===== src/Cluster/Whole.antt =====
-- include/mcache/client.h, `client_template_t` with the consistent hashing pool: the constructor, and
-- the servers that a key's loop sees.
pub mod Fresh
pub mod Typed
use mcache_client.Prelude.{
  ℕ, zero, ◌+◌, ◌*◌, Bool, true, false, List, [], Bytes, codes, length, if◌then◌else◌,
}
use mcache_client.Error.{ErrorCode, mc_error, Result, returns, throws, ◌>>=◌}
use mcache_client.Cluster.{World, make_nodes}
use mcache_client.Pool.Ring.{Ring}
use mcache_client.Pool.ConsistentHashing as ConsistentHashing
use mcache_client.Pool.ConsistentHashing.{choose, traverse, make_pool}

-- `client_template_t`, without its configuration.
pub record Whole (P : Type 0) (max : ℕ) : Type 0 where
  pub ring : Ring
  pub world : World P max

-- The test behind the members' construction.
abbrev pub ready : {A : Type 0} → Bool → A → Result A
ready true a = returns a
ready false a = throws (mc_error ErrorCode.internal_error (codes "mc::init() hasn't been called"))

module _ (hashf : Bytes → ℕ → ℕ) where
  -- The constructor: the pool and the proxies are there before the library's initialisation is asked
  -- for. Every server starts in the same state.
  unfoldable pub new_client :
      {P : Type 0} {max : ℕ}
      → Bool
      → ConsistentHashing.Config
      → P
      → List Bytes
      → Result (Whole P max)
  unfolding make_nodes
  new_client {P} {max} initialized cfg s addresses = do
    ring ← make_pool hashf cfg addresses
    ready initialized (record {
      ring = ring;
      world = record { nodes = make_nodes P max s addresses; readings = 0 };
    })

  -- The indices that the loop of `run` sees for a key: it ends after this many steps.
  unfoldable pub walk : Ring → Bytes → List ℕ
  unfolding choose traverse
  walk ring key = traverse (2 * length ring + 1) ring (choose hashf ring key)
