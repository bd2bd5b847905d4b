-- ===== src/Proto.antt =====
-- include/mcache/proto and src/proto: the two memcache protocols.
pub mod Response
pub mod Command
pub mod Key
pub mod Options
pub mod Zlib
pub mod Bin
pub mod Txt
