-- ===== src/Handlers.antt =====
-- The gRPC handlers of internal/delivery/grpc/handlers. A request is what the generated getters return
-- of it, and a timestamp the time it stands for.
pub mod Errors
pub mod Escrow
pub mod Withdrawal
pub mod Payment
pub mod Queries
pub mod Credit
