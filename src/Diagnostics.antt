-- ===== src/Diagnostics.antt =====
-- src/diagnostics.rs: counters of recent minutes, the buffer of recent errors, and the classes of
-- groups with one administrator.
mod Buckets
mod Records
unfoldable pub use Buckets.*
unfoldable pub use Records.*
pub mod Windows
pub mod Totals
mod Tests
