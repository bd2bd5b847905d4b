-- ===== src/Server/Proxy/Failing.antt =====
-- When a server is marked dead: the failures in a row against the limit.
use mcache_client.Prelude.{
  ℕ, suc, ◌^◌, ◌≤◌, ◌<◌, ◌≡◌, refl, ◌⊎◌, inl, true, false, List, [], ◌∷◌, arith, leb,
}
use mcache_client.Server.Proxy.{Config, Shared, new_shared, callable, handle_failure, revive}

-- What happens to the shared data of a server, one call at a time.
pub data Event : Type 0 where
  -- `callable` at a time
  asked : ℕ → Event
  -- `send` with a response
  answered : Event
  -- `send` with an `io::error_t`, handled at a time
  failed : ℕ → Event

unfoldable pub step : Config → Event → Shared → Shared
step cfg (asked now) s = (callable cfg now s).0
step cfg answered s = revive s
step cfg (failed now) s = (handle_failure cfg now s).0

unfoldable pub run : Config → List Event → Shared → Shared
run cfg [] s = s
run cfg (e ∷ es) s = run cfg es (step cfg e s)

-- The failures since the last response, in a history that began with `k` of them.
unfoldable pub failures_in_a_row : ℕ → List Event → ℕ
failures_in_a_row k [] = k
failures_in_a_row k (asked now ∷ es) = failures_in_a_row k es
failures_in_a_row k (answered ∷ es) = failures_in_a_row 0 es
failures_in_a_row k (failed now ∷ es) = failures_in_a_row (suc k) es

-- Below the limit the counter is exact; once the server is dead it may even have wrapped.
abbrev Counts : Config → ℕ → Shared → Type 0
Counts cfg k s =
    (s.locked ≡ false)
    × (((s.dead ≡ false) × (s.fails ≡ k) × (k < cfg.fail_limit))
        ⊎ ((s.dead ≡ true) × (cfg.fail_limit ≤ k)))

abbrev IsLimit : Config → Type 0
IsLimit cfg = (0 < cfg.fail_limit) × (cfg.fail_limit < 2 ^ 32)

callable-Counts :
    (cfg : Config) (k now : ℕ) (s : Shared) → Counts cfg k s → Counts cfg k (callable cfg now s).0
unfolding callable
callable-Counts cfg k now s c = ground arith

revive-Counts :
    (cfg : Config) (k : ℕ) (s : Shared) → IsLimit cfg → Counts cfg k s → Counts cfg 0 (revive s)
unfolding revive
revive-Counts cfg k s l c = ground arith

handle_failure-Counts :
    (cfg : Config) (k now : ℕ) (s : Shared)
    → IsLimit cfg
    → Counts cfg k s
    → Counts cfg (suc k) (handle_failure cfg now s).0
unfolding handle_failure
handle_failure-Counts cfg k now s l c = ground arith

run-Counts :
    (cfg : Config) (es : List Event) (k : ℕ) (s : Shared)
    → IsLimit cfg
    → Counts cfg k s
    → Counts cfg (failures_in_a_row k es) (run cfg es s)
unfolding run step failures_in_a_row
run-Counts cfg [] k s l c = c
run-Counts cfg (asked now ∷ es) k s l c = run-Counts cfg es k _ l (callable-Counts cfg k now s c)
run-Counts cfg (answered ∷ es) k s l c = run-Counts cfg es 0 _ l (revive-Counts cfg k s l c)
run-Counts cfg (failed now ∷ es) k s l c =
    run-Counts cfg es (suc k) _ l (handle_failure-Counts cfg k now s l c)

-- With one caller at a time and a limit between 1 and 2 ^ 32 - 1, after any history of a new server
-- it is marked dead exactly when the failures since the last response have reached the limit.
-- The counter's wrap-around at 2 ^ 32 does not show.
pub dead-failures_in_a_row :
    (cfg : Config) (es : List Event)
    → IsLimit cfg
    → (run cfg es new_shared).dead ≡ leb cfg.fail_limit (failures_in_a_row 0 es)
dead-failures_in_a_row cfg es l =
    ground (arith, run-Counts cfg es 0 new_shared l (refl, inl (refl, refl, l.0)))
