-- ===== src/ClientManager.antt =====
-- src/client_manager.rs: what the start of a bot does to the tables of its groups.
mod Reconcile
mod Loops
mod Marks
mod Reconciled
mod Tests
mod Starting
mod Started
