-- ===== src/Server/Lock.antt =====
-- include/mcache/lock.h: the guard around a server's reconnect section, and the threads that use it.
pub mod Threads
use mcache_client.Prelude.{Bool, true, false, not}

-- The state of a mutex: is it locked. `try_lock` of `std::mutex` locks a free mutex and says so;
-- `unlock` frees it, whoever locked it. (For a caller that does not hold the mutex the C++ standard
-- defines no behaviour; this is what the common implementation does.)
unfoldable pub try_lock : Bool → Bool × Bool
try_lock locked = (true, not locked)

unfoldable pub unlock : Bool → Bool
unlock locked = false
