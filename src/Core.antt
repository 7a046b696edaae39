-- ===== src/Core.antt =====
-- crates/fubun-core/src/lib.rs: the handlers of the daemon and the execution of a ritual.
pub mod Base
pub mod Redact
pub mod Outcomes
pub mod Tables
pub mod Engine
pub mod Loop
pub mod Host
pub mod Events
pub mod Resources
pub mod Definition
pub mod Rituals
pub mod Preview
pub mod Preflight
pub mod Run
pub mod Payload
pub mod Status
pub mod Requests
pub mod Finds
pub mod Handles
pub mod Succeeds
pub mod Sound
pub mod Socket
pub mod AdapterConnection
pub mod Connection
