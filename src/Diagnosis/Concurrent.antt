-- ===== src/Diagnosis/Concurrent.antt =====
-- The calls of many clients on one `ConnectionManager` of diagnosis/connection.go, interleaved.
pub mod System
pub mod Owned
pub mod Linear
pub mod Tests
