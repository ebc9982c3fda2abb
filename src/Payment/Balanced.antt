-- ===== src/Payment/Balanced.antt =====
-- The payment use cases keep a property that looks at no table that they write but the ledger's,
-- and at escrows that are not LOCKED.
pub mod Statements
use airbar_finance.Prelude.{
  ℕ, Bool, true, false, Option, none, some, inl, inr, Bool-cases, any, ◌||◌, not,
}
use airbar_finance.Prelude.Int.{ℤ, pos, leb_ℤ}
use airbar_finance.Prelude.Text.{Text, same, is_empty}
use airbar_finance.Domain.Audit.{Payload}
use airbar_finance.Domain.Errors.{Error}
use airbar_finance.Domain.Gateway.{RequestResult}
use airbar_finance.Domain.Payment.{
  Order, Purpose, shipment, wallet_topup, Status, pending, confirmed, failed,
}
use airbar_finance.Domain.Provider.{EventType, Event}
use airbar_finance.Store.World.{Db, Env, M, Result, ok, err}
use airbar_finance.Store.Keeps.{Keeps, Preserves, keeps_rules}
use airbar_finance.Ledger.Post.Ignores.{Ignores}
use airbar_finance.Ledger.Post.Keeps.{post_journal-Keeps, two_IsNarrow}
use airbar_finance.Audit.{emit-Keeps, emit_payment_created, emit_payment_status_changed}
use airbar_finance.Escrow.Balanced.{fund_escrow-Keeps, escrow_get-Keeps}
use airbar_finance.Payment.Repository.{
  insert_order, create, select_order, get_by_id, select_by_authority, get_by_authority,
  update_order, update,
}
use airbar_finance.Payment.Events.{insert_event, create_event}
use airbar_finance.Payment.Create.{
  after_request, open_order, CreatePaymentOrderInput, create_payment_order,
  CreateWalletTopupOrderInput, create_wallet_topup_order,
}
use airbar_finance.Payment.Verify.{
  VerifyOrderInput, load_order, complete, confirm_current, confirm, after_verify, verify_loaded,
  verify_order, verify_by_authority, verify_payment_order, verify_wallet_topup_order, fail_current,
  fail_payment_order,
}
use airbar_finance.Payment.Callback.{
  HandleCallbackInput, or_else_error, redirect_failed, redirect, verify_and_redirect,
  answer_callback, handle_callback,
}
use airbar_finance.Payment.Balanced.Statements.{IgnoresPayments, payment_keeps}

module _ {P : Db → Type 0} (k : Ignores P) (q : IgnoresPayments P) (env : Env) where
  after_request-Keeps :
      (order : Order) (r : Option RequestResult) → Keeps P (after_request env order r)
  unfolding after_request
  after_request-Keeps order none = search payment_keeps depth 12
  after_request-Keeps order (some result) = search payment_keeps depth 12

  open_order-Keeps : (new : Order) → Keeps P (open_order env new)
  unfolding open_order
  open_order-Keeps new = search (payment_keeps, after_request-Keeps) depth 12

  pub create_payment_order-Keeps :
      (input : CreatePaymentOrderInput) → Keeps P (create_payment_order env input)
  unfolding create_payment_order
  create_payment_order-Keeps input = search (payment_keeps, open_order-Keeps) depth 20

  pub create_wallet_topup_order-Keeps :
      (input : CreateWalletTopupOrderInput) → Keeps P (create_wallet_topup_order env input)
  unfolding create_wallet_topup_order
  create_wallet_topup_order-Keeps input = search (payment_keeps, open_order-Keeps) depth 12

  load_order-Keeps : (input : VerifyOrderInput) → Keeps P (load_order env input)
  unfolding load_order
  load_order-Keeps input = elim (Bool-cases (is_empty input.order_id)) [
    | inl e ↦ rw (e, load_order) (search payment_keeps depth 8)
    | inr e ↦ rw (e, load_order) (search payment_keeps depth 8)
  ]

  complete-Keeps : (p : Purpose) (order : Order) → Keeps P (complete env p order)
  unfolding complete
  complete-Keeps shipment order = search payment_keeps depth 8
  complete-Keeps wallet_topup order = search payment_keeps depth 8

  confirm_current-Keeps :
      (amount : ℤ) (current : Order) (b : Bool) → Keeps P (confirm_current env amount current b)
  unfolding confirm_current
  confirm_current-Keeps amount current true = search payment_keeps
  confirm_current-Keeps amount current false = search (payment_keeps, complete-Keeps) depth 16

  confirm-Keeps : (amount : ℤ) (id : Text) → Keeps P (confirm env amount id)
  unfolding confirm
  confirm-Keeps amount id = search (payment_keeps, confirm_current-Keeps) depth 8

  after_verify-Keeps : (order : Order) (r : Option ℤ) → Keeps P (after_verify env order r)
  unfolding after_verify
  after_verify-Keeps order none = search payment_keeps
  after_verify-Keeps order (some amount) = search (payment_keeps, confirm-Keeps) depth 8

  verify_loaded-Keeps : (order : Order) (s : Status) → Keeps P (verify_loaded env order s)
  unfolding verify_loaded
  verify_loaded-Keeps order confirmed = search payment_keeps
  verify_loaded-Keeps order failed = search payment_keeps
  verify_loaded-Keeps order pending = after_verify-Keeps order (env.psp_verify order.authority)

  verify_order-Keeps : (input : VerifyOrderInput) → Keeps P (verify_order env input)
  unfolding verify_order
  verify_order-Keeps input = search (payment_keeps, load_order-Keeps, verify_loaded-Keeps) depth 8

  verify_by_authority-Keeps : (a : Text) → Keeps P (verify_by_authority env a)
  unfolding verify_by_authority
  verify_by_authority-Keeps a = search (payment_keeps, verify_order-Keeps) depth 8

  pub verify_payment_order-Keeps :
      (id authority : Text) → Keeps P (verify_payment_order env id authority)
  unfolding verify_payment_order
  verify_payment_order-Keeps id authority = verify_order-Keeps _

  pub verify_wallet_topup_order-Keeps :
      (id authority : Text) → Keeps P (verify_wallet_topup_order env id authority)
  unfolding verify_wallet_topup_order
  verify_wallet_topup_order-Keeps id authority = verify_order-Keeps _

  fail_current-Keeps :
      (a s : Text) (order : Order) (b : Bool) → Keeps P (fail_current env a s order b)
  unfolding fail_current
  fail_current-Keeps a s order true = search payment_keeps
  fail_current-Keeps a s order false = search payment_keeps depth 12

  fail_payment_order-Keeps : (a s : Text) → Keeps P (fail_payment_order env a s)
  unfolding fail_payment_order
  fail_payment_order-Keeps a s = search (payment_keeps, fail_current-Keeps) depth 8

  or_else_error-Keeps : {A : Type 0} (m : M A) (e : Error) → Keeps P m → Keeps P (or_else_error m e)
  unfolding or_else_error
  or_else_error-Keeps m e kept = record { at = kept.at }

  redirect_failed-Keeps : (input : HandleCallbackInput) → Keeps P (redirect_failed env input)
  unfolding redirect_failed
  redirect_failed-Keeps input = search (payment_keeps, fail_payment_order-Keeps) depth 8

  redirect-Keeps : (input : HandleCallbackInput) (r : Result Order) → Keeps P (redirect env input r)
  unfolding redirect
  redirect-Keeps input (ok order) = search payment_keeps
  redirect-Keeps input (err e) = or_else_error-Keeps _ e (redirect_failed-Keeps input)

  answer_callback-Keeps :
      (input : HandleCallbackInput) (b : Bool) → Keeps P (answer_callback env input b)
  unfolding answer_callback verify_and_redirect
  answer_callback-Keeps input true = record {
    at = λ w h.
        let verified = verify_by_authority env input.track_id w in
        (redirect-Keeps input verified.0).at verified.1
          ((verify_by_authority-Keeps input.track_id).at w h);
  }
  answer_callback-Keeps input false = redirect_failed-Keeps input

  pub handle_callback-Keeps : (input : HandleCallbackInput) → Keeps P (handle_callback env input)
  unfolding handle_callback
  handle_callback-Keeps input = search (payment_keeps, answer_callback-Keeps) depth 8
