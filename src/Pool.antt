-- ===== src/Pool.antt =====
-- include/mcache/pool: how keys are distributed over the servers.
pub mod Ring
pub mod ConsistentHashing
pub mod Modulo
