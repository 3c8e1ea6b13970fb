-- ===== src/Prepare/Run.antt =====
-- The concurrent part of `prepareTPCCStatements` of prepare/tpcc_runner.go.
pub mod System
pub mod Counted
pub mod Stopped
pub mod Tests
