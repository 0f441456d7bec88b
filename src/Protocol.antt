-- ===== src/Protocol.antt =====
-- src/transport/protocol.rs: the method catalogue, the message on the wire and the frame limit.
mod Methods
pub mod Catalog
mod Tests
unfoldable pub use Methods.*
