-- ===== src/Domain/Errors.antt =====
-- The sentinel errors of internal/domain/*/errors.go, and what a database call can return.
pub data EscrowError : Type 0 where
  not_found duplicate_shipment invalid_transition invalid_amount amount_mismatch : EscrowError
  payer_mismatch insufficient_wallet insufficient_payer_funds no_escrow_balance : EscrowError
  refund_exceeds_balance : EscrowError

pub data LedgerError : Type 0 where
  unbalanced_journal empty_journal invalid_entry duplicate_journal : LedgerError

pub data WalletError : Type 0 where
  invalid_input unsupported_currency : WalletError

pub data CreditError : Type 0 where
  invalid_input not_found duplicate_grant already_reversed unsupported_currency : CreditError

pub data PaymentError : Type 0 where
  not_found invalid_input invalid_purpose amount_mismatch already_confirmed : PaymentError
  escrow_not_ready provider_verify_failed : PaymentError

pub data WithdrawalError : Type 0 where
  not_found invalid_input invalid_transition insufficient_wallet kyc_not_approved : WithdrawalError
  user_inactive : WithdrawalError

pub data IdempotencyError : Type 0 where
  key_required conflict not_found : IdempotencyError

-- `failure` is a lost connection to the database or to Redis, a statement in an aborted transaction, or a value that does not
-- scan into an int64; the others are the violated constraint that PostgreSQL reports.
pub data DatabaseError : Type 0 where
  failure unique_violation check_violation foreign_key_violation : DatabaseError

-- The codes of google.golang.org/grpc/codes that the program answers with.
pub data Code : Type 0 where
  invalid_argument not_found aborted already_exists failed_precondition unimplemented : Code
  internal unavailable : Code

-- `status` is a gRPC status, without its message; `malformed_snapshot` is what reading a response
-- out of a snapshot, or writing it into one, returns.
pub data Error : Type 0 where
  escrow : EscrowError → Error
  ledger : LedgerError → Error
  wallet : WalletError → Error
  credit : CreditError → Error
  payment : PaymentError → Error
  withdrawal : WithdrawalError → Error
  idempotency : IdempotencyError → Error
  run_not_found : Error
  treasury_unsupported_currency : Error
  provider_failed : Error
  database : DatabaseError → Error
  status : Code → Error
  malformed_snapshot : Error
