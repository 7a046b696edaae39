-- ===== src/Protocol.antt =====
-- crates/fubun-protocol/src/lib.rs: the length-prefixed frames and the adapter messages.
pub mod Frame
pub mod Message
