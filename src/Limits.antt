-- ===== src/Limits.antt =====
-- The rate limiter and the deduplication cache of src/dispatch.rs. Times are nanoseconds since
-- some start. Both keep a map within a size by removing the oldest entries.
pub mod Eviction
mod Tests
pub mod Admission
pub mod Sweeping
pub mod Sizes
pub mod Overrides
pub mod Duplicates
mod Buckets
mod Limiter
mod Dedup
unfoldable pub use Buckets.*
unfoldable pub use Limiter.*
unfoldable pub use Dedup.*
