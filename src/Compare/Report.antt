-- ===== src/Compare/Report.antt =====
-- The report of `Compare`: `renderComparison` of diagnosis/compare/compare.go with its helpers, and
-- `formatExecTime` of diagnosis/compare/compare_binding.go.
pub mod Time
pub mod Cell
pub mod Fence
pub mod Anchor
pub mod Columns
pub mod Render
pub mod Total
pub mod Tests
