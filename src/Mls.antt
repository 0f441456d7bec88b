-- ===== src/Mls.antt =====
-- src/mls.rs: the worker thread that owns a bot's MLS engine.
pub mod Engine
pub mod Worker
pub mod Messages
pub mod Joining
pub mod Repairing
pub mod Sample
mod Tests
