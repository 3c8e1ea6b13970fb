-- ===== src/Compare/Plan.antt =====
-- The plan tree of diagnosis/compare/compare.go. A pointer to a node is modelled by the node's own
-- fields (`Operator`) in the collections of readers, where nothing reads `Children`.
pub mod Json
pub mod Line
pub mod Tree
pub mod Parse
pub mod Equal
pub mod Shape
pub mod Step
pub mod Build
pub mod Rebuild
pub mod Equality
pub mod Tests
