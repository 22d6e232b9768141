-- ===== src/Watcher.antt =====
-- nautilus/verifiers/earthquake/watcher/src: the earthquake watcher's state.
pub mod Types
pub mod Text
pub mod Row
pub mod TeeResult
pub mod Repository
pub mod Attempts
pub mod Steps
pub mod Leases
pub mod Due
pub mod Upserts
pub mod Recovery
pub mod DynamoDb
pub mod RunnerControl
pub mod Registration
