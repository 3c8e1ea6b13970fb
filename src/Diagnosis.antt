-- ===== src/Diagnosis.antt =====
-- The package diagnosis: the validator, the connection manager and their handlers.
pub mod Validator
pub mod Validated
pub mod Sql
pub mod Sampled
pub mod Connection
pub mod Connected
pub mod Concurrent
pub mod Tests
