-- ===== src/Adapter.antt =====
-- crates/fubun-core/src/adapter.rs: the registry of connected adapters and the dispatch of actions.
pub mod Hello
pub mod Manager
pub mod Dispatch
pub mod Reports
