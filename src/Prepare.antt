-- ===== src/Prepare.antt =====
-- The package prepare.
pub mod Picker
pub mod Picked
pub mod Insert
pub mod Inserted
pub mod Workers
pub mod Released
pub mod Settings
pub mod Checked
pub mod Startup
pub mod Closed
pub mod StartupTests
pub mod Workload
pub mod Queries
pub mod Weights
pub mod Weighted
pub mod WeightTests
pub mod Bindings
pub mod Adjusted
pub mod Dropped
pub mod Statements
pub mod Completed
pub mod Tests
pub mod Fixture
pub mod Ddl
pub mod Schema
pub mod Seeded
pub mod Referenced
pub mod SeedTests
pub mod Tiflash
pub mod Waiting
pub mod TiflashTests
pub mod Run
pub mod StatementTests
