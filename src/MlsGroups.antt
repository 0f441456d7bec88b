-- ===== src/MlsGroups.antt =====
-- The requests of src/dispatch.rs over the groups of a bot: they join the gate, the database, the
-- bot's MLS engine and the Nostr client.
pub mod Names
pub mod Trimmed
pub mod State
pub mod Waiting
pub mod Preflight
pub mod Creating
pub mod Inviting
pub mod Sending
pub mod Leaving
pub mod Requests
pub mod Rules
pub mod Created
pub mod Creations
pub mod Publishing
pub mod Invited
pub mod Callers
pub mod Gated
pub mod Allowed
pub mod Racing
pub mod Exits
pub mod Texts
pub mod Squads
pub mod Ordered
pub mod Sample
mod Tests
