-- ===== src/Compare/Samples.antt =====
-- The statement texts of diagnosis/compare/compare_repository.go.
pub mod Normalize
pub mod Plain
pub mod Digest
pub mod Found
pub mod Scanner
pub mod Arguments
pub mod Parted
pub mod Grammar
pub mod Numbers
pub mod ArgumentTests
pub mod Tests
