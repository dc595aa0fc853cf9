-- ===== src/Core.antt =====
-- crates/kafkaman-core: the pure part of the library.
pub mod Status
pub mod Problem
pub mod Error
pub mod Config
pub mod Sampler
pub mod Topics
pub mod Identifier
pub mod Rfc9557
pub mod Idempotency
pub mod Names
pub mod Validated
