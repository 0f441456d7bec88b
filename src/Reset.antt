-- ===== src/Reset.antt =====
-- src/mls_reset.rs and src/mls_key.rs: what becomes of a bot's MLS store at the start.
pub mod Io
pub mod StoreKey
pub mod Moves
pub mod Classify
pub mod Upkeep
mod Kept
mod Stores
pub mod Clearing
pub mod Upholding
pub mod Completing
pub mod Ready
mod Missing
mod Tests
mod Finishing
mod Done
mod Finished
pub mod Tracing
