-- ===== src/Withdrawal.antt =====
-- Payouts: internal/domain/withdrawal, internal/usecase/withdrawal and the repository of withdrawals.
pub mod Status
pub mod Repository
pub mod Create
pub mod Lifecycle
pub mod Reversal
pub mod Balanced
