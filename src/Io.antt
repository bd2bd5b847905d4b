-- ===== src/Io.antt =====
-- include/mcache/io and src/io: connections, and the pools that keep them.
pub mod Connections
pub mod Address
pub mod Udp
pub mod Search
pub mod Tcp
