-- ===== src/Compare/Summary.antt =====
-- `Comparer.Compare` and `aggregateSqlInfos` of diagnosis/compare/compare.go.
pub mod Infos
pub mod Totals
pub mod Run
pub mod Once
pub mod Kept
pub mod Tests
