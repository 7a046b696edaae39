-- ===== src/Domain.antt =====
-- crates/fubun-domain: the records of the system and their validators.
-- A UUID and a moment in time are numbers; the program compares them and never computes with them.
pub mod Base
pub mod Action
pub mod Ritual
pub mod WebUrl
pub mod Resource
pub mod Event
pub mod Execution
