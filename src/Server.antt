-- ===== src/Server.antt =====
-- include/mcache/server-proxy.h and include/mcache/lock.h.
pub mod Lock
pub mod Proxy
