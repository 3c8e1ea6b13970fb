-- ===== src/Advisor.antt =====
-- The package diagnosis/index_advisor.
pub mod Statement
pub mod Align
pub mod Aligned
pub mod Hinted
pub mod Samples
pub mod Recommend
pub mod Loop
pub mod Bounded
pub mod Report
pub mod Written
pub mod LoopTests
pub mod Tests
