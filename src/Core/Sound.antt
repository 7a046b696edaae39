-- ===== src/Core/Sound.antt =====
-- What each handler of crates/fubun-core/src/lib.rs leaves true of the tables.
pub mod Rules
pub mod Readers
pub mod Writers
pub mod Requests
