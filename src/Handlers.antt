-- ===== src/Handlers.antt =====
-- src/handlers.rs: handler connections and the registry of handlers.
pub mod Grants
pub mod Reconnect
pub mod Invariant
pub mod Tests
mod Connection
mod Registry
unfoldable pub use Connection.*
unfoldable pub use Registry.*
