-- ===== src/Domain.antt =====
-- internal/domain: entities, value objects and errors. One module for each package.
pub mod Errors
pub mod Ledger
pub mod Escrow
pub mod Account
pub mod Credit
pub mod Payment
pub mod Withdrawal
pub mod Audit
pub mod Provider
pub mod Reconciliation
pub mod Idempotency
pub mod Gateway
