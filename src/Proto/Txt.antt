-- ===== src/Proto/Txt.antt =====
-- include/mcache/proto/txt.h and src/proto/txt.cc: the text protocol.
pub mod Requests
pub mod Retrievals
pub mod Streams
pub mod Api
pub mod Lines
pub mod Responses
pub mod Values
