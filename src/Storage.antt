-- ===== src/Storage.antt =====
-- crates/fubun-storage/src/lib.rs: the tables behind the writer thread and the operations on them.
pub mod Names
pub mod Sql
pub mod Rituals
pub mod Executions
pub mod Resources
pub mod Events
pub mod Counts
pub mod Sound
