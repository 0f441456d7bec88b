-- ===== src/Db.antt =====
-- src/db.rs: the tables of `agent.db` and the operations on them. SQLite runs each statement as
-- written; the errors here are those of the constraints of the schema and of the code itself.
pub mod Tables
pub mod Groups
pub mod Resets
pub mod Keys
pub mod Renames
pub mod Reconciling
pub mod Runs
mod Tests
