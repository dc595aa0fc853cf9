-- ===== src/Worker.antt =====
-- crates/kafkaman-worker: the loops around the database operations.
pub mod Dispatcher
pub mod Breaker
pub mod Relay
pub mod Publishing
pub mod Steps
