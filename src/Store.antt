-- ===== src/Store.antt =====
-- The database behind the repositories: its tables, statements, and the transactions of tx.go.
pub mod World
pub mod Sql
pub mod Keeps
pub mod Yields
pub mod Returns
pub mod Leads
pub mod Atomic
pub mod Reverts
