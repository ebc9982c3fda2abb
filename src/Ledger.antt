-- ===== src/Ledger.antt =====
-- The double-entry ledger: internal/domain/ledger and internal/usecase/ledger.
pub mod Account
pub mod Journal
pub mod Repository
pub mod Post
pub mod Like
