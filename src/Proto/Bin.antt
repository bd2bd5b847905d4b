-- ===== src/Proto/Bin.antt =====
-- include/mcache/proto/binary.h and src/proto/binary.cc: the binary protocol.
pub mod Header
pub mod Commands
pub mod Responses
pub mod Framing
pub mod Api
