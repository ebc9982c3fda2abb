-- ===== src/Idempotency.antt =====
-- Deduplication of mutating calls: internal/usecase/idempotency, internal/delivery/grpc/idempotency,
-- the repository of idempotency records and the cache of responses in Redis.
pub mod Repository
pub mod Guard
pub mod Methods
pub mod Interceptor
pub mod Exclusion
pub mod Replay
pub mod Finish
pub mod Once
pub mod Retry
pub mod Leaves
pub mod Phases
