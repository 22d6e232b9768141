-- ===== src/Examples.antt =====
-- Tests, and the theorems applied at concrete inputs.
pub mod Proofs
pub mod Manifest
pub mod Repository
pub mod DynamoDb
pub mod RunnerControl
pub mod Registration
