-- ===== src/Server/Proxy/Guard.antt =====
-- `send` on every outcome of its attempt, and the guard of `callable` while another thread is inside.
use mcache_client.Prelude.{
  ℕ, ◌+◌, ◌%◌, ◌^◌, ◌≤◌, ◌<◌, ◌≡◌, refl, ◌≢◌, ◌∙◌, ◌⊎◌, inl, inr, ◌++◌, true, false, arith, ltb,
  if◌then◌else◌, Bytes, codes,
}
use mcache_client.Error.{
  ResponseCode, IoErrorCode, Exception, Result, returns, throws, response_value,
}
use mcache_client.Io.Connections.{ConnectionPool}
use mcache_client.Proto.Response.{IsResponse}
use mcache_client.Server.Proxy.{
  Config, Shared, Proxy, callable, send, settle, handle, accept, note_failure,
}

-- While another thread holds the lock of a dead server whose quarantine is over, `callable` refuses,
-- and yet it leaves the lock free.
pub callable_frees_held :
    (cfg : Config) (now : ℕ) (s : Shared)
    → s.dead ≡ true
    → s.restoration ≤ now
    → s.locked ≡ true
    → ((callable cfg now s).1 ≡ false) × ((callable cfg now s).0.locked ≡ false)
unfolding callable
callable_frees_held cfg now s d r l = ground arith

note_failure_limit :
    (cfg : Config) (now : ℕ) (s : Shared)
    → cfg.fail_limit ≤ (s.fails + 1) % 2 ^ 32
    → ((note_failure cfg now s).0.dead ≡ true) × ((note_failure cfg now s).1 ≡ true)
unfolding note_failure
note_failure_limit cfg now s h = ground arith

note_failure_below :
    (cfg : Config) (now : ℕ) (s : Shared)
    → (s.fails + 1) % 2 ^ 32 < cfg.fail_limit
    → ((note_failure cfg now s).0.dead ≡ s.dead) × ((note_failure cfg now s).1 ≡ false)
unfolding note_failure
note_failure_below cfg now s h = ground arith

module _ {C R : Type 0} (pool : ConnectionPool C) ⦃i : IsResponse R⦄ where
  handle_other :
      (cfg : Config) (now : ℕ) (x : Exception) (p : Proxy pool)
      → ((code : IoErrorCode) (msg : Bytes) → x ≢ Exception.io_error code msg)
      → ((handle {R = R} pool cfg now x p).1 ≡ throws x)
        × ((handle {R = R} pool cfg now x p).0.shared ≡ p.shared)
  unfolding handle
  handle_other cfg now (Exception.io_error code msg) p other = absurd (other code msg refl)
  handle_other cfg now _ p other = (refl, refl)

  module _ (cfg : Config) (now : ℕ) (made : Result C) (talk : C → C × Result R)
      (p : Proxy pool) where
    -- The proxy behind the pick.
    abbrev picking : Proxy pool
    picking = record p { connections = (pool.pick p.connections made).0 }

    send_picked :
        (c : C)
        → (pool.pick p.connections made).1 ≡ returns c
        → send pool cfg now made talk p ≡ settle pool cfg now picking (talk c)
    unfolding send
    send_picked c e = rw (e, send)

    send_unpicked :
        (x : Exception)
        → (pool.pick p.connections made).1 ≡ throws x
        → send pool cfg now made talk p ≡ handle pool cfg now x picking
    unfolding send
    send_unpicked x e = rw (e, send)

    -- The attempt ends in this exception: the new connection's constructor throws it, or the exchange.
    abbrev pub Attempt-throws : Exception → Type 0
    Attempt-throws x =
        ((pool.pick p.connections made).1 ≡ throws x)
        ⊎ ((c : C) × (c' : C) × ((pool.pick p.connections made).1 ≡ returns c)
            × (talk c ≡ (c', throws x)))

    send-handle :
        (x : Exception)
        → Attempt-throws x
        → send pool cfg now made talk p ≡ handle pool cfg now x picking
    send-handle x (inl e) = send_unpicked x e
    send-handle x (inr (c, c', e, t)) = send_picked c e ∙ rw t

    -- A response revives the server and is given back as it is; the connection that carried it returns
    -- to the pool exactly if the response's code is below `error`, 500.
    pub send_response :
        (c c' : C) (response : R)
        → (pool.pick p.connections made).1 ≡ returns c
        → talk c ≡ (c', returns response)
        → let rest = (pool.pick p.connections made).0 in
          let after = send pool cfg now made talk p in
          (after.1 ≡ returns response)
          × (after.0.shared.dead ≡ false)
          × (after.0.shared.fails ≡ 0)
          × (after.0.connections ≡ (
              if ltb (response_value (i.code response)) 500 then pool.push_back c' rest else rest))
    unfolding accept response_value
    send_response c c' response picked talked =
        rw (send_picked c picked, talked) (refl, refl, refl, refl)

    -- The count of a failure, where the lock was free.
    send_io_error_free :
        (code : IoErrorCode) (msg : Bytes)
        → Attempt-throws (Exception.io_error code msg)
        → p.shared.locked ≡ false
        → let after = send pool cfg now made talk p in
          let count = (p.shared.fails + 1) % 2 ^ 32 in
          (after.0.shared.fails ≡ count)
          × (after.0.shared.locked ≡ false)
          × (cfg.fail_limit ≤ count
              → (after.0.shared.dead ≡ true) × (pool.size after.0.connections ≡ 0))
          × (count < cfg.fail_limit
              → (after.0.shared.dead ≡ p.shared.dead)
                × (after.0.connections ≡ (pool.pick p.connections made).0))
    unfolding handle
    send_io_error_free code msg x free =
        rw (send-handle (Exception.io_error code msg) x, free)
          (
            ground arith,
            ground arith,
            (λ h.
                let m = note_failure_limit cfg now (record p.shared { locked = true }) h in
                (m.0, rw (m.1) (pool.size-clear (pool.pick p.connections made).0))),
            (λ h.
                let m = note_failure_below cfg now (record p.shared { locked = true }) h in
                (m.0, rw (m.1) refl)),
          )

    -- An input or output error, of a new connection or of the exchange, never leaves `send`: it becomes
    -- an `io_error` response, and the lock is free behind it. Where the lock was free, the failure is
    -- counted; if the count reaches the limit, the server is dead and its pool empty, and else it is
    -- dead if it was, and the pool is as the pick left it. Where another thread held the lock, nothing
    -- is counted: the shared data but the lock are as they were, and the pool as the pick left it.
    pub send_io_error :
        (code : IoErrorCode) (msg : Bytes)
        → Attempt-throws (Exception.io_error code msg)
        → let after = send pool cfg now made talk p in
          let count = (p.shared.fails + 1) % 2 ^ 32 in
          ((r : R) × (after.1 ≡ returns r) × (i.code r ≡ ResponseCode.io_error))
          × (p.shared.locked ≡ false
              → (after.0.shared.fails ≡ count)
                × (after.0.shared.locked ≡ false)
                × (cfg.fail_limit ≤ count
                    → (after.0.shared.dead ≡ true) × (pool.size after.0.connections ≡ 0))
                × (count < cfg.fail_limit
                    → (after.0.shared.dead ≡ p.shared.dead)
                      × (after.0.connections ≡ (pool.pick p.connections made).0)))
          × (p.shared.locked ≡ true
              → (after.0.shared ≡ record p.shared { locked = false })
                × (after.0.connections ≡ (pool.pick p.connections made).0))
    unfolding handle
    send_io_error code msg x = (
      rw (send-handle (Exception.io_error code msg) x) (
        i.of_status ResponseCode.io_error (codes "connection failed: " ++ msg),
        refl,
        i.code-of_status ResponseCode.io_error (codes "connection failed: " ++ msg),
      ),
      send_io_error_free code msg x,
      (λ held. rw (send-handle (Exception.io_error code msg) x, held) (refl, refl)),
    )

    -- Any other exception goes through, and the server's state is as it was.
    pub send_other_exception :
        (x : Exception)
        → ((code : IoErrorCode) (msg : Bytes) → x ≢ Exception.io_error code msg)
        → Attempt-throws x
        → let after = send pool cfg now made talk p in
          (after.1 ≡ throws x) × (after.0.shared ≡ p.shared)
    send_other_exception x other a = rw (send-handle x a) (handle_other cfg now x picking other)
