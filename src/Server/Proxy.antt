-- ===== src/Server/Proxy.antt =====
-- include/mcache/server-proxy.h: one memcache server seen from the client, with the rule that takes a
-- failing server out of use for a while. A call reads the clock once; its reading is an argument. A
-- time point is its number of ticks (nanoseconds, as in libstdc++) above `time_point_t::min()`.
pub mod Failing
pub mod Quarantine
pub mod Threads
pub mod Guard
use mcache_client.Prelude.{
  ℕ, suc, ◌+◌, ◌-◌, ◌*◌, ◌/◌, ◌%◌, ◌^◌, Bool, true, false, not, List, [], ◌∷◌, ◌++◌, ltb, leb, ◌==◌,
  if◌then◌else◌, Bytes, codes,
}
use mcache_client.Error.{ResponseCode, Exception, Result, returns, throws, response_value}
use mcache_client.Io.Connections.{ConnectionPool}
use mcache_client.Proto.Response.{IsResponse}
use mcache_client.Server.Lock.{try_lock, unlock}

-- `server_proxy_config_t`, with the interval in seconds.
pub record Config : Type 0 where
  pub restoration_interval : ℕ
  pub fail_limit : ℕ

abbrev pub default_config : Config
default_config = record { restoration_interval = 60; fail_limit = 1 }

abbrev pub ticks_per_second : ℕ
ticks_per_second = 1_000_000_000

-- 1970-01-01, counted from `time_point_t::min()`.
abbrev pub epoch : ℕ
epoch = 2 ^ 63

-- `shared_t`.
pub record Shared : Type 0 where
  pub restoration : ℕ
  pub dead : Bool
  pub fails : ℕ
  pub locked : Bool

abbrev pub new_shared : Shared
new_shared = record { restoration = 0; dead = false; fails = 0; locked = false }

abbrev pub interval_ticks : Config → ℕ
interval_ticks cfg = cfg.restoration_interval * ticks_per_second

-- `is_dead`.
unfoldable pub is_dead : Shared → Bool
is_dead s = s.dead

-- The part of `callable` under the guard, whose destructor unlocks on both ways out.
unfoldable pub callable_guarded : Config → ℕ → Shared → Bool → Shared × Bool
unfolding unlock
callable_guarded cfg now s got =
    if got
    then (record s { restoration = now + interval_ticks cfg; locked = unlock s.locked }, true)
    else (record s { locked = unlock s.locked }, false)

-- `callable`.
unfoldable pub callable : Config → ℕ → Shared → Shared × Bool
unfolding callable_guarded try_lock
callable cfg now s =
    if not s.dead
    then (s, true)
    else if ltb now s.restoration
    then (s, false)
    else let (locked, got) = try_lock s.locked in
      callable_guarded cfg now (record s { locked = locked }) got

-- `lifespan`, in seconds: a negative difference counts as none.
unfoldable pub lifespan : Config → ℕ → Shared → ℕ
lifespan cfg now s =
    if s.restoration == 0
    then (now - epoch) / ticks_per_second
    else (now + interval_ticks cfg - s.restoration) / ticks_per_second

-- What `catch (const io::error_t &)` does to the shared data once it holds the lock, and whether the
-- pool of connections is destroyed. `fails` is a `uint32_t`.
unfoldable pub note_failure : Config → ℕ → Shared → Shared × Bool
note_failure cfg now s =
    let fails = (s.fails + 1) % 2 ^ 32 in
    if leb cfg.fail_limit fails
    then (record s { fails = fails; restoration = now + interval_ticks cfg; dead = true }, true)
    else (record s { fails = fails }, false)

-- The handler under its guard: it counts the failure only where the lock was free.
unfoldable pub handle_failure : Config → ℕ → Shared → Shared × Bool
unfolding note_failure try_lock unlock
handle_failure cfg now s =
    let (locked, got) = try_lock s.locked in
    let held = record s { locked = locked } in
    let (noted, destroy) = if got then note_failure cfg now held else (held, false) in
    (record noted { locked = unlock noted.locked }, destroy)

-- A response arrived: the server is alive.
unfoldable pub revive : Shared → Shared
revive s = record s { dead = false; fails = 0 }

-- The proxy: what it shares with other threads or processes, and its own connections.
pub record Proxy {C : Type 0} (pool : ConnectionPool C) : Type 0 where
  pub shared : Shared
  pub connections : pool.State

module _ {C R : Type 0} (pool : ConnectionPool C) ⦃i : IsResponse R⦄ where
  -- The connection goes back to the pool unless the command did not understand the response.
  unfoldable pub accept : C → R → Proxy pool → Proxy pool × Result R
  unfolding revive
  accept c response p = (
    record p {
      shared = revive p.shared;
      connections =
          if ltb (response_value (i.code response)) (response_value ResponseCode.error)
          then pool.push_back c p.connections
          else p.connections;
    },
    returns response,
  )

  -- An `io::error_t` becomes a response; any other exception goes on to the caller.
  unfoldable pub handle : Config → ℕ → Exception → Proxy pool → Proxy pool × Result R
  unfolding handle_failure
  handle cfg now (Exception.io_error code msg) p =
      let (shared, destroy) = handle_failure cfg now p.shared in
      (
        record p {
          shared = shared;
          connections = if destroy then pool.clear p.connections else p.connections;
        },
        returns (i.of_status ResponseCode.io_error (codes "connection failed: " ++ msg)),
      )
  handle cfg now e p = (p, throws e)

  -- The end of an attempt on a picked connection.
  abbrev pub settle : Config → ℕ → Proxy pool → C × Result R → Proxy pool × Result R
  settle cfg now p (c, returns response) = accept c response p
  settle cfg now p (c, throws e) = handle cfg now e p

  -- `send`: `made` is what the constructor of a new connection would give, `talk` is the command's
  -- exchange over a connection, `now` the clock where the handler reads it.
  unfoldable pub send :
      Config → ℕ → Result C → (C → C × Result R) → Proxy pool → Proxy pool × Result R
  unfolding accept handle
  send cfg now made talk p =
      let (rest, picked) = pool.pick p.connections made in
      let p' = record p { connections = rest } in
      elim picked [ returns c ↦ settle cfg now p' (talk c) | throws e ↦ handle cfg now e p' ]
