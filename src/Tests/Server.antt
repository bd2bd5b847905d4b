-- ===== src/Tests/Server.antt =====
-- include/mcache/server-proxy.h and include/mcache/lock.h: the theorems at one server.
use mcache_client.Prelude.{
  ℕ, ◌+◌, ◌*◌, ◌<◌, ◌≤◌, ◌≡◌, refl, inr, true, false, List, [], ◌∷◌, arith, leb, ◌==◌,
  if◌then◌else◌,
}
use mcache_client.Error.{IoErrorCode, ResponseCode, Exception, Result, returns, throws}
use mcache_client.Proto.Response.{SingleResponse, single_response, single}
use mcache_client.Io.Connections.{ConnectionPool}
use mcache_client.Io.Connections.Caching.{caching_pool, pick}
use mcache_client.Server.Proxy.Threads as Threads
use mcache_client.Server.Proxy.Threads.Alone.{Alone, behind, alone-callable}
use mcache_client.Server.Proxy.Threads.Quarantine.{reach_dead}
use mcache_client.Server.Proxy.Threads.Races.{dead_without_failures}
use mcache_client.Server.Proxy.{
  interval_ticks, revive, Config, new_shared, callable, handle_failure, Proxy, send,
}
use mcache_client.Server.Proxy.Failing.{Event, run, failures_in_a_row, dead-failures_in_a_row}
use mcache_client.Server.Proxy.Quarantine.{callable-handle_failure}
use mcache_client.Server.Proxy.Guard.{send_io_error}
use mcache_client.Server.Lock.Threads.{Place, State, Reach, initial, guard_not_exclusive}

abbrev three_failures : Config
three_failures = record { restoration_interval = 60; fail_limit = 3 }

abbrev history : List Event
history =
    Event.failed 5
    ∷ Event.answered
    ∷ Event.failed 6
    ∷ Event.failed 7
    ∷ Event.asked 8
    ∷ Event.failed 9
    ∷ []

dead-failures_in_a_row_example :
    (run three_failures history new_shared).dead ≡ leb 3 (failures_in_a_row 0 history)
dead-failures_in_a_row_example =
    dead-failures_in_a_row three_failures history (ground arith, ground arith)

abbrev one_failure : Config
one_failure = record { restoration_interval = 60; fail_limit = 1 }

marked : (handle_failure one_failure 7 new_shared).1 ≡ true
unfolding handle_failure
marked = refl

abbrev sixty : ℕ
sixty = 60 * 1_000_000_000

callable-handle_failure_example :
    let dead = (handle_failure one_failure 7 new_shared).0 in
    let tried = (callable one_failure 9 dead).0 in
    (9 < 7 + sixty → callable one_failure 9 dead ≡ (dead, false))
    × (7 + sixty ≤ 9
        → ((callable one_failure 9 dead).1 ≡ true)
          × (20 < 9 + sixty → callable one_failure 20 tried ≡ (tried, false))
          × (9 + sixty ≤ 20 → (callable one_failure 20 tried).1 ≡ true))
callable-handle_failure_example = callable-handle_failure one_failure 7 9 20 new_shared refl marked

guard_not_exclusive_example :
    (s : State) × Reach initial s × (s.place 1 ≡ Place.inside) × (s.place 2 ≡ Place.inside)
guard_not_exclusive_example = guard_not_exclusive 1 2 (λ e. absurd (omega arith))

-- A pool of numbered connections, and a proxy that has one of them.
abbrev numbered : ConnectionPool ℕ
numbered = caching_pool ℕ 2

abbrev proxy : Proxy numbered
proxy = record { shared = new_shared; connections = 5 ∷ [] }

abbrev stored : SingleResponse
stored = single ResponseCode.stored []

abbrev answers : ℕ → ℕ × Result SingleResponse
answers c = (c, returns stored)

abbrev breaks : ℕ → ℕ × Result SingleResponse
breaks c = (c, throws (Exception.io_error IoErrorCode.timeout []))

abbrev rejects : ℕ → ℕ × Result SingleResponse
rejects c = (c, throws Exception.out_of_range)

picked : (numbered.pick proxy.connections (returns 6)).1 ≡ returns 5
unfolding pick
picked = refl

send_io_error_example :
    let after = send numbered one_failure 9 (returns 6) breaks proxy in
    ((r : SingleResponse) × (after.1 ≡ returns r) × (r.status ≡ ResponseCode.io_error))
    × (proxy.shared.locked ≡ false
        → (after.0.shared.fails ≡ 1)
          × (after.0.shared.locked ≡ false)
          × (1 ≤ 1 → (after.0.shared.dead ≡ true) × (numbered.size after.0.connections ≡ 0))
          × (1 < 1
              → (after.0.shared.dead ≡ false)
                × (after.0.connections ≡ (numbered.pick proxy.connections (returns 6)).0)))
    × (proxy.shared.locked ≡ true
        → (after.0.shared ≡ record proxy.shared { locked = false })
          × (after.0.connections ≡ (numbered.pick proxy.connections (returns 6)).0))
send_io_error_example =
    send_io_error numbered one_failure 9 (returns 6) breaks proxy IoErrorCode.timeout []
      (inr (5, 5, picked, refl))

-- Two threads, and what they have brought about.
abbrev raced :
    (s : Threads.State) × Threads.Reach one_failure Threads.initial s
    × (s.shared.dead ≡ true)
    × (s.shared.fails ≡ 0)
    × (s.place 1 ≡ Threads.Place.idle)
    × (s.place 2 ≡ Threads.Place.idle)
raced = dead_without_failures one_failure 1 2 (λ e. absurd (omega arith)) (ground arith)

dead_without_failures_example :
    (s : Threads.State) × Threads.Reach one_failure Threads.initial s
    × (s.shared.dead ≡ true)
    × (s.shared.fails ≡ 0)
    × (s.place 1 ≡ Threads.Place.idle)
    × (s.place 2 ≡ Threads.Place.idle)
dead_without_failures_example =
    dead_without_failures one_failure 1 2 (λ e. absurd (omega arith)) (ground arith)

reach_dead_example :
    (now : ℕ) × (now ≤ raced.0.clock)
    × (raced.0.shared.restoration ≡ now + interval_ticks one_failure)
reach_dead_example = reach_dead one_failure raced.0 raced.1 raced.2

-- A dead server whose quarantine is over, with a thread in front of each of the three parts.
abbrev due : Threads.State
due = record {
  shared = record { restoration = 5; dead = true; fails = 1; locked = false };
  clock = 7;
  place = λ t.
      if t == 0
      then Threads.Place.idle
      else if t == 1
      then Threads.Place.revives
      else Threads.Place.handles;
}

alone-callable_example :
    (due.place 0 ≡ Threads.Place.idle
      → let result = callable one_failure 7 due.shared in
        Alone one_failure 0 due (behind one_failure result.1) result.0)
    × (due.place 0 ≡ Threads.Place.revives
        → Alone one_failure 0 due Threads.Place.idle (revive due.shared))
    × (due.place 0 ≡ Threads.Place.handles
        → Alone one_failure 0 due Threads.Place.idle (handle_failure one_failure 7 due.shared).0)
alone-callable_example = alone-callable one_failure 0 due
