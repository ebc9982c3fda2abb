-- ===== src/Lib.antt =====
-- airbar-finance: the ledger, the escrows, the payments, the payouts and the promotional credit of a
-- marketplace's finance service (Go, over PostgreSQL and Redis), modelled as functions on the tables
-- of the database.
--
-- Store (internal/infrastructure/postgres/tx.go and migrations): the tables, the state of a request
--   (committed tables, the view of its open transaction, whether that transaction is broken), a
--   monad of state and errors, statements on the pool and on a transaction, and WithTx. Every call
--   to the database counts one tick, and the environment says which ticks fail, so that a theorem
--   over all environments covers every sequence of failures. Requests run one at a time:
--   interleavings within a transaction are not modelled, nor is a commit that takes effect although
--   its answer is lost. Store/Keeps, Leads, Atomic, Reverts, Yields and Returns are the rules that
--   carry properties of tables and of results through an action.
-- Domain (internal/domain): the records, statuses and sentinel errors.
-- Ledger (internal/domain/ledger, internal/usecase/ledger/post_journal.go and
--   internal/infrastructure/postgres/repository/ledger.go): account codes, ValidateLines and
--   NewJournal on wrapping int64 sums, CreateJournal, the sums, LIKE patterns, and PostJournal.
-- Accounts (internal/usecase/wallet, internal/usecase/credit and the repositories of both): accounts
--   created on demand, their lookup, balances and listings.
-- Audit (internal/usecase/audit/emitter.go): the emission of events, whose errors callers drop.
-- Amounts (internal/usecase/*/amount.go): ParseAmount and FormatAmount; twenty digits of fuel are
--   enough, since an int64 has at most nineteen.
-- Escrow (internal/domain/escrow, internal/usecase/escrow and repository/escrow.go): statuses and
--   their guards, the fee, the split of payments and refunds, and the use cases. The product of
--   floats in CalcPlatformFee is a parameter.
-- Withdrawal (internal/domain/withdrawal, internal/usecase/withdrawal, repository/withdrawal.go):
--   payouts. SHA-256, TrimSpace and ToUpper are parameters.
-- Credit (internal/usecase/credit and repository/credit.go): grants and their reversal.
-- Payment (internal/usecase/payment, internal/usecase/provider, repository/payment.go and
--   provider_event.go): orders, their verification, the callback and the provider's events. What the
--   provider answers is a parameter.
-- Idempotency (internal/usecase/idempotency, internal/delivery/grpc/idempotency,
--   repository/idempotency.go and internal/infrastructure/redis/idempotency_cache.go): the guard and
--   the interceptor around a handler, which is any action. Here the statements of several requests
--   interleave too (Idempotency/Exclusion). The conversion of messages into JSON is a parameter,
--   with the law that reading gives back what was written; so is what has expired in Redis.
--   Idempotency/Leaves is about the condition that the theorems put on handlers.
-- Handlers (internal/delivery/grpc/handlers): the codes of errors, and the handlers of all services
--   but reconciliation.
-- Reconciliation (internal/usecase/reconciliation and repository/reconciliation.go): its runs.
-- Treasury (internal/usecase/treasury): the summary of balances.
-- System: the writing use cases as one type of calls, and the tables that sequences of calls reach.
-- Tests: the theorems at concrete inputs.
--
-- A part of the program calls another as the code does: escrow, payout and grant use cases open a
-- transaction, post journals through Ledger/Post, create accounts through Accounts and write events
-- through Audit.
--
-- Not modelled: the handler of reconciliation runs, whose findings become the floating-point numbers
-- of structpb; the transport, the configuration, the wiring of cmd/server/main.go, the generated code
-- and the clients of Redis and of the payment provider, which only move data.
pub mod Prelude
pub mod Ledger
pub mod Domain
pub mod Store
pub mod Accounts
pub mod Audit
pub mod Escrow
pub mod Amounts
pub mod Withdrawal
pub mod Credit
pub mod Reconciliation
pub mod System
pub mod Tests
pub mod Treasury
pub mod Payment
pub mod Idempotency
pub mod Handlers
