-- ===== src/Tests.antt =====
-- The theorems of the other modules at concrete inputs.
pub mod Adapters
pub mod Documents
pub mod Executions
pub mod Frames
pub mod NativeHost
pub mod Requests
pub mod Tables
