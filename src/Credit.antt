-- ===== src/Credit.antt =====
-- Promotional credit grants: internal/usecase/credit and the repository of grants.
pub mod Repository
pub mod Grants
pub mod Balanced
