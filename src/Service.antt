-- ===== src/Service.antt =====
-- The HTTP service of cmd/main.go: its routes and the handlers behind them.
pub mod Server
pub mod Served
pub mod Tests
