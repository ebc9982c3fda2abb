-- ===== src/System/Balanced.antt =====
-- The ledger of every state that requests can reach is balanced, and reconciliation says so.
use airbar_finance.Prelude.{◌≡◌, refl, false}
use airbar_finance.Prelude.Int.{IsInt64}
use airbar_finance.Domain.Reconciliation.{Run, passed}
use airbar_finance.Store.World.{Db, Env, M, ok, ◌>>◌, pure}
use airbar_finance.Store.Sql.{idle}
use airbar_finance.Store.Keeps.{Keeps, Keeps-bind, Keeps-pure}
use airbar_finance.Ledger.Repository.{sum_debit, sum_credit}
use airbar_finance.Ledger.Repository.Sums.{IsBalanced, everything}
use airbar_finance.Escrow.Balanced.{
  create_escrow-Keeps, mark_delivered-Keeps, freeze_escrow-Keeps, release_escrow-Keeps,
  refund_escrow-Keeps, partial_refund_escrow-Keeps, pay_from_wallet-Keeps, fund_escrow-Keeps,
}
use airbar_finance.Withdrawal.Balanced.{
  create_withdrawal-Keeps, approve_withdrawal-Keeps, settle_withdrawal-Keeps,
  mark_withdrawal_sent-Keeps, process_withdrawal-Keeps, reject_withdrawal-Keeps,
  fail_withdrawal-Keeps,
}
use airbar_finance.Credit.Balanced.{grant_credit-Keeps, reverse_credit_grant-Keeps}
use airbar_finance.Prelude.Text.{Text}
use airbar_finance.Ledger.Post.Ignores.{Ignores, IsBalanced-Ignores}
use airbar_finance.Payment.Create.{CreatePaymentOrderInput, CreateWalletTopupOrderInput}
use airbar_finance.Payment.Create
use airbar_finance.Payment.Verify
use airbar_finance.Payment.Callback.{HandleCallbackInput}
use airbar_finance.Payment.Callback
use airbar_finance.Payment.Balanced.Statements.{IgnoresPayments}
use airbar_finance.Payment.Balanced.{
  create_payment_order-Keeps, create_wallet_topup_order-Keeps, verify_payment_order-Keeps,
  verify_wallet_topup_order-Keeps, handle_callback-Keeps,
}
use airbar_finance.Reconciliation.{run_reconciliation}
use airbar_finance.Reconciliation.Passes.{run_reconciliation-Keeps, reconciliation_verdict}
use airbar_finance.System.{
  Call, perform, Reachable, migrated, request, create_escrow_call, mark_delivered_call,
  freeze_escrow_call, release_escrow_call, refund_escrow_call, partial_refund_escrow_call,
  pay_from_wallet_call, fund_escrow_call, create_withdrawal_call, approve_withdrawal_call,
  settle_withdrawal_call, mark_withdrawal_sent_call, process_withdrawal_call,
  reject_withdrawal_call, fail_withdrawal_call, grant_credit_call, reverse_credit_grant_call,
  run_reconciliation_call, create_payment_order_call, create_wallet_topup_order_call,
  verify_payment_order_call, verify_wallet_topup_order_call, handle_callback_call,
}

answered : {P : Db → Type 0} {A : Type 0} {m : M A} → Keeps P m → Keeps P (m >> pure tt)
answered k = Keeps-bind _ _ k (λ _. Keeps-pure tt)

-- The use cases of payments keep `P`.
pub record Payments (P : Db → Type 0) : Type 0 where
  pub order_creation :
      (env : Env) (input : CreatePaymentOrderInput)
      → Keeps P (Create.create_payment_order env input)
  pub topup_creation :
      (env : Env) (input : CreateWalletTopupOrderInput)
      → Keeps P (Create.create_wallet_topup_order env input)
  pub order_verification :
      (env : Env) (id authority : Text) → Keeps P (Verify.verify_payment_order env id authority)
  pub topup_verification :
      (env : Env) (id authority : Text)
      → Keeps P (Verify.verify_wallet_topup_order env id authority)
  pub callback_handling :
      (env : Env) (input : HandleCallbackInput) → Keeps P (Callback.handle_callback env input)

pub perform-Keeps :
    {P : Db → Type 0}
    → Ignores P
    → Payments P
    → (env : Env) (call : Call) → Keeps P (perform env call)
unfolding perform
perform-Keeps k p env (create_escrow_call input) = answered (create_escrow-Keeps k env input)
perform-Keeps k p env (mark_delivered_call s) = answered (mark_delivered-Keeps k env s)
perform-Keeps k p env (freeze_escrow_call s) = answered (freeze_escrow-Keeps k env s)
perform-Keeps k p env (release_escrow_call s) = answered (release_escrow-Keeps k env s)
perform-Keeps k p env (refund_escrow_call s) = answered (refund_escrow-Keeps k env s)
perform-Keeps k p env (partial_refund_escrow_call s a) =
    answered (partial_refund_escrow-Keeps k env s a)
perform-Keeps k p env (pay_from_wallet_call input) = answered (pay_from_wallet-Keeps k env input)
perform-Keeps k p env (fund_escrow_call input) = answered (fund_escrow-Keeps k env input)
perform-Keeps k p env (create_withdrawal_call input) =
    answered (create_withdrawal-Keeps k env input)
perform-Keeps k p env (approve_withdrawal_call id) = answered (approve_withdrawal-Keeps k env id)
perform-Keeps k p env (settle_withdrawal_call id) = answered (settle_withdrawal-Keeps k env id)
perform-Keeps k p env (mark_withdrawal_sent_call input) =
    answered (mark_withdrawal_sent-Keeps k env input)
perform-Keeps k p env (process_withdrawal_call input) =
    answered (process_withdrawal-Keeps k env input)
perform-Keeps k p env (reject_withdrawal_call id reason) =
    answered (reject_withdrawal-Keeps k env id reason)
perform-Keeps k p env (fail_withdrawal_call id reason) =
    answered (fail_withdrawal-Keeps k env id reason)
perform-Keeps k p env (grant_credit_call input) = answered (grant_credit-Keeps k env input)
perform-Keeps k p env (reverse_credit_grant_call input) =
    answered (reverse_credit_grant-Keeps k env input)
perform-Keeps k p env run_reconciliation_call = answered (run_reconciliation-Keeps k env)
perform-Keeps k p env (create_payment_order_call input) = answered (p.order_creation env input)
perform-Keeps k p env (create_wallet_topup_order_call input) = answered (p.topup_creation env input)
perform-Keeps k p env (verify_payment_order_call id authority) =
    answered (p.order_verification env id authority)
perform-Keeps k p env (verify_wallet_topup_order_call id authority) =
    answered (p.topup_verification env id authority)
perform-Keeps k p env (handle_callback_call input) = answered (p.callback_handling env input)

pub payments_kept : {P : Db → Type 0} → Ignores P → IgnoresPayments P → Payments P
payments_kept k q = record {
  order_creation = create_payment_order-Keeps k q;
  topup_creation = create_wallet_topup_order-Keeps k q;
  order_verification = verify_payment_order-Keeps k q;
  topup_verification = verify_wallet_topup_order-Keeps k q;
  callback_handling = handle_callback-Keeps k q;
}

IsBalanced-Payments : Payments IsBalanced
IsBalanced-Payments =
    payments_kept IsBalanced-Ignores
      (record { orders = λ rows d h. h; provider_events = λ rows d h. h })

-- Whatever requests to the modelled use cases have been served, and whichever of their database
-- calls failed, the debits of the whole ledger equal its credits.
pub Reachable-IsBalanced : (d : Db) → Reachable d → IsBalanced d
Reachable-IsBalanced _ migrated = refl
Reachable-IsBalanced _ (request env call d r) =
    let h = Reachable-IsBalanced d r in
    ((perform-Keeps IsBalanced-Ignores IsBalanced-Payments env call).at (idle d)
      (record { of_committed = h; of_view = tt })).of_committed

-- After whatever requests to the modelled use cases, a reconciliation run none of whose database
-- calls fails, on a ledger whose two sums fit into 64 bits, returns a run with status PASSED.
pub reconciliation_passes :
    (env : Env) (d : Db)
    → Reachable d
    → env.fails 0 ≡ false
    → env.fails 1 ≡ false
    → IsInt64 (sum_debit everything d.entries)
    → IsInt64 (sum_credit everything d.entries)
    → (run : Run) × (((run_reconciliation env (idle d)).0 ≡ ok run) × (run.status ≡ passed))
reconciliation_passes env d r f g h k =
    let (run, (returned, verdict)) = reconciliation_verdict env d f g h k in
    (run, (returned, verdict.1 (Reachable-IsBalanced d r)))
