-- ===== src/System/Atomic.antt =====
-- What a failed call leaves behind.
use airbar_finance.Prelude.{◌≡◌, refl}
use airbar_finance.Prelude.Text.{Text}
use airbar_finance.Domain.Errors.{Error}
use airbar_finance.Domain.Withdrawal.{Withdrawal}
use airbar_finance.Store.World.{Db, Env, err}
use airbar_finance.Store.Sql.{idle}
use airbar_finance.Store.Atomic.{Shields, shields_rules}
use airbar_finance.Store.Reverts.{Reverts, Reverts-then_pure, reverts_rules}
use airbar_finance.Audit.{emit, emit_withdrawal_created, emit_withdrawal_status_changed}
use airbar_finance.Ledger.Repository.Atomic.{Unchanged}
use airbar_finance.Ledger.Post.Atomic.{get_balance-Stays, post_journal-Shields}
use airbar_finance.Escrow.Pay.{pay_from_wallet}
use airbar_finance.Escrow.Release.{release_escrow}
use airbar_finance.Escrow.Refund.{refund_escrow, partial_refund_escrow}
use airbar_finance.Withdrawal.Repository.{create, get_by_id, update}
use airbar_finance.Withdrawal.Create.{CreateWithdrawalInput, reserve, create_withdrawal}
use airbar_finance.Withdrawal.Lifecycle.{emit_status, store}
use airbar_finance.Withdrawal.Reversal.{reject, reject_withdrawal, fail_payout, fail_withdrawal}
use airbar_finance.Payment.Verify.{verify_payment_order, verify_wallet_topup_order}
use airbar_finance.Escrow.Atomic.{
  pay-Shields, release-Shields, refund-Shields, partial_refund-Shields,
}
use airbar_finance.Payment.Atomic.{verify_order-Reverts}
use airbar_finance.System.{
  Call, perform, release_escrow_call, refund_escrow_call, partial_refund_escrow_call,
  pay_from_wallet_call, create_withdrawal_call, reject_withdrawal_call, fail_withdrawal_call,
  create_escrow_call, mark_delivered_call, freeze_escrow_call, fund_escrow_call,
  approve_withdrawal_call, settle_withdrawal_call, mark_withdrawal_sent_call,
  process_withdrawal_call, grant_credit_call, reverse_credit_grant_call, run_reconciliation_call,
  create_payment_order_call, create_wallet_topup_order_call, verify_payment_order_call,
  verify_wallet_topup_order_call, handle_callback_call,
}

module _ {old : Db} (env : Env) where
  create-Shields : (row : Withdrawal) → Shields (Unchanged old) (create env row)
  unfolding create
  create-Shields row = search shields_rules depth 8

  get_by_id-Shields : (id : Text) → Shields (Unchanged old) (get_by_id env id)
  unfolding get_by_id
  get_by_id-Shields id = search shields_rules

  update-Shields : (row : Withdrawal) → Shields (Unchanged old) (update env row)
  unfolding update
  update-Shields row = search shields_rules depth 8

  emit_withdrawal_created-Shields :
      (i u s : Text) → Shields (Unchanged old) (emit_withdrawal_created env i u s)
  unfolding emit_withdrawal_created emit
  emit_withdrawal_created-Shields i u s = search shields_rules depth 8

  emit_status-Shields : (row : Withdrawal) → Shields (Unchanged old) (emit_status env row)
  unfolding emit_status emit_withdrawal_status_changed emit
  emit_status-Shields row = search shields_rules depth 8

  store-Shields : (row : Withdrawal) → Shields (Unchanged old) (store env row)
  unfolding store
  store-Shields row = search (shields_rules, update-Shields, emit_status-Shields) depth 8

ruleset withdrawal_shields = (
  shields_rules, create-Shields, get_by_id-Shields, store-Shields, emit_withdrawal_created-Shields,
  post_journal-Shields,
)

module _ {old : Db} (env : Env) where
  reserve-Shields : (input : CreateWithdrawalInput) → Shields (Unchanged old) (reserve env input)
  unfolding reserve
  reserve-Shields input = search withdrawal_shields depth 20

  reject-Shields : (id reason : Text) → Shields (Unchanged old) (reject env id reason)
  unfolding reject
  reject-Shields id reason = search withdrawal_shields depth 20

  fail_payout-Shields : (id reason : Text) → Shields (Unchanged old) (fail_payout env id reason)
  unfolding fail_payout
  fail_payout-Shields id reason = search withdrawal_shields depth 20

ruleset bodies = (
  reverts_rules, pay-Shields, release-Shields, refund-Shields, partial_refund-Shields,
  reserve-Shields, reject-Shields, fail_payout-Shields, get_balance-Stays,
)

-- The calls that move money and a row of escrows, withdrawals or payment orders in one transaction.
abbrev pub MovesMoney : Call → Type 0
MovesMoney (release_escrow_call s) = Unit
MovesMoney (refund_escrow_call s) = Unit
MovesMoney (partial_refund_escrow_call s a) = Unit
MovesMoney (pay_from_wallet_call input) = Unit
MovesMoney (create_withdrawal_call input) = Unit
MovesMoney (reject_withdrawal_call id reason) = Unit
MovesMoney (fail_withdrawal_call id reason) = Unit
MovesMoney (verify_payment_order_call id authority) = Unit
MovesMoney (verify_wallet_topup_order_call id authority) = Unit
MovesMoney _ = ⊥

perform-Reverts :
    {old : Db} (env : Env) (call : Call)
    → MovesMoney call
    → Reverts (Unchanged old) (perform env call)
unfolding perform release_escrow refund_escrow partial_refund_escrow pay_from_wallet
    create_withdrawal reject_withdrawal fail_withdrawal verify_payment_order
    verify_wallet_topup_order
perform-Reverts env (release_escrow_call s) h = Reverts-then_pure _ tt (search bodies depth 12)
perform-Reverts env (refund_escrow_call s) h = Reverts-then_pure _ tt (search bodies depth 12)
perform-Reverts env (partial_refund_escrow_call s a) h =
    Reverts-then_pure _ tt (search bodies depth 12)
perform-Reverts env (pay_from_wallet_call input) h = Reverts-then_pure _ tt (search bodies depth 12)
perform-Reverts env (create_withdrawal_call input) h =
    Reverts-then_pure _ tt (search bodies depth 20)
perform-Reverts env (reject_withdrawal_call id reason) h =
    Reverts-then_pure _ tt (search bodies depth 12)
perform-Reverts env (fail_withdrawal_call id reason) h =
    Reverts-then_pure _ tt (search bodies depth 12)
perform-Reverts env (verify_payment_order_call id authority) h =
    Reverts-then_pure _ tt (verify_order-Reverts env _)
perform-Reverts env (verify_wallet_topup_order_call id authority) h =
    Reverts-then_pure _ tt (verify_order-Reverts env _)
perform-Reverts env (create_escrow_call _) h = absurd h
perform-Reverts env (mark_delivered_call _) h = absurd h
perform-Reverts env (freeze_escrow_call _) h = absurd h
perform-Reverts env (fund_escrow_call _) h = absurd h
perform-Reverts env (approve_withdrawal_call _) h = absurd h
perform-Reverts env (settle_withdrawal_call _) h = absurd h
perform-Reverts env (mark_withdrawal_sent_call _) h = absurd h
perform-Reverts env (process_withdrawal_call _) h = absurd h
perform-Reverts env (grant_credit_call _) h = absurd h
perform-Reverts env (reverse_credit_grant_call _) h = absurd h
perform-Reverts env run_reconciliation_call h = absurd h
perform-Reverts env (create_payment_order_call _) h = absurd h
perform-Reverts env (create_wallet_topup_order_call _) h = absurd h
perform-Reverts env (handle_callback_call _) h = absurd h

-- A payment from the wallet, a release, a refund or partial refund, a payout request, the
-- rejection or failure of a payout, or the verification of a payment that returns an error,
-- wherever it failed, leaves the committed escrows, withdrawals, payment orders, journals and
-- entries as they were.
pub failed_call-Unchanged :
    (env : Env) (call : Call) (d : Db) (x : Error)
    → MovesMoney call
    → (perform env call (idle d)).0 ≡ err x
    → Unchanged d (perform env call (idle d)).1.committed
failed_call-Unchanged env call d x h e =
    (perform-Reverts env call h).at (idle d) x e (record {
      escrows = refl;
      withdrawals = refl;
      orders = refl;
      journals = refl;
      entries = refl;
    })
