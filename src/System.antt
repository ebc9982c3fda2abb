-- ===== src/System.antt =====
-- The use cases together, as the handlers of internal/delivery/grpc call them one after another, and
-- the tables that a sequence of such requests can reach.
pub mod Balanced
pub mod Atomic
pub mod Settled
pub mod Unlocked
use airbar_finance.Prelude.{[]}
use airbar_finance.Prelude.Int.{ℤ}
use airbar_finance.Prelude.Text.{Text}
use airbar_finance.Store.World.{Db, Env, M, ◌>>=◌, ◌>>◌, pure}
use airbar_finance.Store.Sql.{idle}
use airbar_finance.Escrow.Lifecycle.{
  CreateEscrowInput, create_escrow, mark_delivered, freeze_escrow,
}
use airbar_finance.Escrow.Pay.{PayFromWalletInput, pay_from_wallet}
use airbar_finance.Escrow.Fund.{FundEscrowInput, fund_escrow}
use airbar_finance.Escrow.Release.{release_escrow}
use airbar_finance.Escrow.Refund.{refund_escrow, partial_refund_escrow}
use airbar_finance.Withdrawal.Create.{CreateWithdrawalInput, create_withdrawal}
use airbar_finance.Withdrawal.Lifecycle.{
  PayoutInput, approve_withdrawal, mark_withdrawal_sent, settle_withdrawal, process_withdrawal,
}
use airbar_finance.Withdrawal.Reversal.{reject_withdrawal, fail_withdrawal}
use airbar_finance.Credit.Grants.{
  GrantCreditInput, grant_credit, ReverseCreditInput, reverse_credit_grant,
}
use airbar_finance.Reconciliation.{run_reconciliation}
use airbar_finance.Payment.Create.{
  CreatePaymentOrderInput, create_payment_order, CreateWalletTopupOrderInput,
  create_wallet_topup_order,
}
use airbar_finance.Payment.Verify.{verify_payment_order, verify_wallet_topup_order}
use airbar_finance.Payment.Callback.{HandleCallbackInput, handle_callback}

-- The calls that write.
pub data Call : Type 0 where
  create_escrow_call : CreateEscrowInput → Call
  mark_delivered_call freeze_escrow_call release_escrow_call refund_escrow_call : Text → Call
  partial_refund_escrow_call : Text → ℤ → Call
  pay_from_wallet_call : PayFromWalletInput → Call
  fund_escrow_call : FundEscrowInput → Call
  create_withdrawal_call : CreateWithdrawalInput → Call
  approve_withdrawal_call settle_withdrawal_call : Text → Call
  mark_withdrawal_sent_call process_withdrawal_call : PayoutInput → Call
  reject_withdrawal_call fail_withdrawal_call : Text → Text → Call
  grant_credit_call : GrantCreditInput → Call
  reverse_credit_grant_call : ReverseCreditInput → Call
  run_reconciliation_call : Call
  create_payment_order_call : CreatePaymentOrderInput → Call
  create_wallet_topup_order_call : CreateWalletTopupOrderInput → Call
  verify_payment_order_call verify_wallet_topup_order_call : Text → Text → Call
  handle_callback_call : HandleCallbackInput → Call

-- The use case of a call; its response is dropped.
unfoldable pub perform : Env → Call → M (Unit {0})
perform env (create_escrow_call input) = create_escrow env input >> pure tt
perform env (mark_delivered_call s) = mark_delivered env s >> pure tt
perform env (freeze_escrow_call s) = freeze_escrow env s >> pure tt
perform env (release_escrow_call s) = release_escrow env s >> pure tt
perform env (refund_escrow_call s) = refund_escrow env s >> pure tt
perform env (partial_refund_escrow_call s a) = partial_refund_escrow env s a >> pure tt
perform env (pay_from_wallet_call input) = pay_from_wallet env input >> pure tt
perform env (fund_escrow_call input) = fund_escrow env input >> pure tt
perform env (create_withdrawal_call input) = create_withdrawal env input >> pure tt
perform env (approve_withdrawal_call id) = approve_withdrawal env id >> pure tt
perform env (settle_withdrawal_call id) = settle_withdrawal env id >> pure tt
perform env (mark_withdrawal_sent_call input) = mark_withdrawal_sent env input >> pure tt
perform env (process_withdrawal_call input) = process_withdrawal env input >> pure tt
perform env (reject_withdrawal_call id reason) = reject_withdrawal env id reason >> pure tt
perform env (fail_withdrawal_call id reason) = fail_withdrawal env id reason >> pure tt
perform env (grant_credit_call input) = grant_credit env input >> pure tt
perform env (reverse_credit_grant_call input) = reverse_credit_grant env input >> pure tt
perform env run_reconciliation_call = run_reconciliation env >> pure tt
perform env (create_payment_order_call input) = create_payment_order env input >> pure tt
perform env (create_wallet_topup_order_call input) = create_wallet_topup_order env input >> pure tt
perform env (verify_payment_order_call id authority) =
    verify_payment_order env id authority >> pure tt
perform env (verify_wallet_topup_order_call id authority) =
    verify_wallet_topup_order env id authority >> pure tt
perform env (handle_callback_call input) = handle_callback env input >> pure tt

abbrev pub no_rows : Db
no_rows = record {
  journals = [];
  entries = [];
  wallet_accounts = [];
  credit_accounts = [];
  escrows = [];
  grants = [];
  orders = [];
  withdrawals = [];
  finance_events = [];
  provider_events = [];
  runs = [];
  idempotency_records = [];
}

-- The tables after requests from the empty ones on; each request has its own clock, its own ids and
-- its own failing calls.
pub data Reachable : Db → Type 0 where
  migrated : Reachable no_rows
  request :
      (env : Env) (call : Call) (d : Db)
      → Reachable d
      → Reachable (perform env call (idle d)).1.committed
