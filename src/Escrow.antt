-- ===== src/Escrow.antt =====
-- Shipment escrows: internal/domain/escrow, internal/usecase/escrow and the repository of escrows.
pub mod Status
pub mod Fee
pub mod Funding
pub mod Repository
pub mod Lifecycle
pub mod Pay
pub mod Fund
pub mod Release
pub mod Refund
pub mod Balanced
pub mod Atomic
