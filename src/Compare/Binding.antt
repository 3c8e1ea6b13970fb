-- ===== src/Compare/Binding.antt =====
-- diagnosis/compare/compare_binding.go: the optimizer hint put into a recorded statement.
pub mod Words
pub mod Select
pub mod Place
pub mod Main
pub mod Ends
pub mod Result
pub mod Tests
