-- ===== src/Compare.antt =====
-- The package diagnosis/compare.
pub mod Plan
pub mod Binding
pub mod Summary
pub mod Report
pub mod Samples
pub mod Sql
