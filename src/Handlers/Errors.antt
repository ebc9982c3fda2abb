-- ===== src/Handlers/Errors.antt =====
-- internal/delivery/grpc/handlers/errors.go
use airbar_finance.Domain.Errors.{
  Error, Code, EscrowError, LedgerError, PaymentError, WithdrawalError, CreditError, escrow, ledger,
  payment, withdrawal, credit, wallet, status, invalid_argument, already_exists,
  failed_precondition, internal, duplicate_journal,
}

unfoldable pub escrow_code : EscrowError → Code
escrow_code EscrowError.not_found = Code.not_found
escrow_code EscrowError.duplicate_shipment = already_exists
escrow_code EscrowError.invalid_amount = invalid_argument
escrow_code EscrowError.amount_mismatch = invalid_argument
escrow_code EscrowError.payer_mismatch = invalid_argument
escrow_code EscrowError.invalid_transition = failed_precondition
escrow_code EscrowError.insufficient_wallet = failed_precondition
escrow_code EscrowError.insufficient_payer_funds = failed_precondition
escrow_code EscrowError.no_escrow_balance = failed_precondition
escrow_code EscrowError.refund_exceeds_balance = failed_precondition

unfoldable pub journal_code : LedgerError → Code
journal_code duplicate_journal = already_exists
journal_code LedgerError.unbalanced_journal = invalid_argument
journal_code LedgerError.empty_journal = invalid_argument
journal_code LedgerError.invalid_entry = invalid_argument

unfoldable pub map_escrow_error : Error → Error
unfolding escrow_code journal_code
map_escrow_error (escrow e) = status (escrow_code e)
map_escrow_error (ledger e) = status (journal_code e)
map_escrow_error _ = status internal

-- Of the ledger's errors, the other maps know ErrDuplicateJournal.
unfoldable pub duplicate_code : LedgerError → Code
duplicate_code duplicate_journal = already_exists
duplicate_code _ = internal

unfoldable pub payment_code : PaymentError → Code
payment_code PaymentError.not_found = Code.not_found
payment_code PaymentError.invalid_input = invalid_argument
payment_code PaymentError.amount_mismatch = invalid_argument
payment_code PaymentError.invalid_purpose = invalid_argument
payment_code PaymentError.escrow_not_ready = failed_precondition
payment_code PaymentError.provider_verify_failed = failed_precondition
payment_code PaymentError.already_confirmed = internal

unfoldable pub map_payment_error : Error → Error
unfolding payment_code duplicate_code
map_payment_error (payment e) = status (payment_code e)
map_payment_error (escrow EscrowError.payer_mismatch) = status failed_precondition
map_payment_error (ledger e) = status (duplicate_code e)
map_payment_error _ = status internal

unfoldable pub map_wallet_error : Error → Error
map_wallet_error (wallet e) = status invalid_argument
map_wallet_error _ = status internal

unfoldable pub withdrawal_code : WithdrawalError → Code
withdrawal_code WithdrawalError.not_found = Code.not_found
withdrawal_code WithdrawalError.invalid_input = invalid_argument
withdrawal_code WithdrawalError.insufficient_wallet = failed_precondition
withdrawal_code WithdrawalError.kyc_not_approved = failed_precondition
withdrawal_code WithdrawalError.user_inactive = failed_precondition
withdrawal_code WithdrawalError.invalid_transition = failed_precondition

unfoldable pub map_withdrawal_error : Error → Error
unfolding withdrawal_code duplicate_code
map_withdrawal_error (withdrawal e) = status (withdrawal_code e)
map_withdrawal_error (ledger e) = status (duplicate_code e)
map_withdrawal_error _ = status internal

unfoldable pub credit_code : CreditError → Code
credit_code CreditError.not_found = Code.not_found
credit_code CreditError.invalid_input = invalid_argument
credit_code CreditError.already_reversed = failed_precondition
credit_code CreditError.duplicate_grant = already_exists
credit_code CreditError.unsupported_currency = internal

unfoldable pub map_credit_error : Error → Error
unfolding credit_code duplicate_code
map_credit_error (credit e) = status (credit_code e)
map_credit_error (ledger e) = status (duplicate_code e)
map_credit_error _ = status internal
