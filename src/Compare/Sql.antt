-- ===== src/Compare/Sql.antt =====
-- `SQLRepository` of diagnosis/compare/repository.go.
pub mod Rows
pub mod Explain
pub mod Repository
pub mod Held
pub mod Tests
