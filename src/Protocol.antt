-- ===== src/Protocol.antt =====
-- The wire protocol, rust/proto/src.
pub mod Codec
