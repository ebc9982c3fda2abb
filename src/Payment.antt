-- ===== src/Payment.antt =====
-- Payment orders and the payment provider: internal/usecase/payment, internal/usecase/provider and the
-- repositories of orders and of provider events.
pub mod Repository
pub mod Events
pub mod Create
pub mod Verify
pub mod Callback
pub mod Balanced
pub mod Atomic
pub mod Settled
pub mod Results
pub mod Pages
