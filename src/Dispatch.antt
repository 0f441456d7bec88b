-- ===== src/Dispatch.antt =====
-- src/dispatch.rs: the router between the handlers, the bots and the network.
mod State
mod Actions
mod Notices
mod Lifecycle
mod Responses
mod Sending
mod Delivery
mod Routing
mod Admin
pub mod Rules
pub mod Counting
pub mod Lives
pub mod Restoring
pub mod Answering
pub mod Gates
pub mod Cursors
pub mod Collecting
pub mod Groups
pub mod Administration
mod Tests
unfoldable pub use State.*
unfoldable pub use Actions.*
unfoldable pub use Responses.*
unfoldable pub use Sending.*
unfoldable pub use Delivery.*
unfoldable pub use Admin.*
unfoldable pub use Routing.*
unfoldable pub use Notices.*
unfoldable pub use Lifecycle.*
