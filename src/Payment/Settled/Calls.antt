-- ===== src/Payment/Settled/Calls.antt =====
-- The use cases of payments and a confirmed order.
use airbar_finance.Prelude.{◌≡◌, refl, Bool, true, false, Option, none, some, inl, inr, Bool-cases}
use airbar_finance.Prelude.Int.{ℤ}
use airbar_finance.Prelude.Text.{Text, same, is_empty}
use airbar_finance.Domain.Gateway.{RequestResult}
use airbar_finance.Domain.Payment.{
  Order, Purpose, shipment, wallet_topup, Status, pending, confirmed, failed,
}
use airbar_finance.Store.World.{Env, Result, ok, err}
use airbar_finance.Store.Keeps.{
  Keeps, Keeps-pure, Keeps-fail, Keeps-bind, Keeps-ignore, Keeps-now_utc, Keeps-fail_if,
  keeps_rules,
}
use airbar_finance.Store.Yields.{Keeps-bind-Yields}
use airbar_finance.Ledger.Post.Ignores.{posting-Keeps}
use airbar_finance.Ledger.Post.Keeps.{two_IsNarrow}
use airbar_finance.Escrow.Balanced.{fund_escrow-Keeps, escrow_get-Keeps}
use airbar_finance.Payment.Repository.{is_confirmed}
use airbar_finance.Payment.Create.{
  after_request, open_order, CreatePaymentOrderInput, create_payment_order,
  CreateWalletTopupOrderInput, create_wallet_topup_order,
}
use airbar_finance.Payment.Verify.{
  VerifyOrderInput, load_order, complete, confirm_current, confirm, after_verify, verify_loaded,
  verify_order, verify_by_authority, verify_payment_order, verify_wallet_topup_order, fail_current,
  fail_payment_order,
}
use airbar_finance.Payment.Callback.{
  HandleCallbackInput, or_else_error, redirect_failed, redirect, verify_and_redirect,
  answer_callback, handle_callback,
}
use airbar_finance.Payment.Settled.{IsSettled, Agrees, Others}
use airbar_finance.Payment.Settled.Access.{
  IsSettled-Ignores, create-Keeps, create-Yields, get_by_id-Keeps, get_by_authority-Keeps,
  get_by_authority-Yields, update-Keeps, create_event-Keeps, emit_created-Keeps, emit_status-Keeps,
}

ruleset settled_keeps = (
  keeps_rules, get_by_id-Keeps, get_by_authority-Keeps, update-Keeps, create_event-Keeps,
  emit_created-Keeps, emit_status-Keeps, escrow_get-Keeps, IsSettled-Ignores, posting-Keeps,
  two_IsNarrow, fund_escrow-Keeps,
)

module _ (id : Text) (env : Env) where
  after_request-Keeps :
      (order : Order) (r : Option RequestResult)
      → Others id order
      → Keeps (IsSettled id) (after_request env order r)
  unfolding after_request
  after_request-Keeps order none other =
      Keeps-bind _ _ (Keeps-ignore _ (update-Keeps id env _ (λ e. cc (other, e))))
        λ u. Keeps-bind _ _ (Keeps-ignore _ (emit_status-Keeps id env _ _)) (λ v. Keeps-fail _)
  after_request-Keeps order (some result) other =
      Keeps-bind _ _ (update-Keeps id env _ (λ e. cc (other, e))) λ u.
        Keeps-bind _ _ (Keeps-ignore _ (create_event-Keeps id env _ _ _ _ _)) (λ v. Keeps-pure _)

  open_order-Keeps : (new : Order) → Keeps (IsSettled id) (open_order env new)
  unfolding open_order
  open_order-Keeps new =
      Keeps-bind-Yields _ _ (create-Keeps id env new) (create-Yields id env new) λ order other.
        Keeps-bind _ _ (Keeps-ignore _ (emit_created-Keeps id env _ _ _))
          (λ u. after_request-Keeps order _ other)

  pub create_payment_order-Keeps :
      (input : CreatePaymentOrderInput) → Keeps (IsSettled id) (create_payment_order env input)
  unfolding create_payment_order
  create_payment_order-Keeps input = search (settled_keeps, open_order-Keeps) depth 20

  pub create_wallet_topup_order-Keeps :
      (input : CreateWalletTopupOrderInput)
      → Keeps (IsSettled id) (create_wallet_topup_order env input)
  unfolding create_wallet_topup_order
  create_wallet_topup_order-Keeps input = search (settled_keeps, open_order-Keeps) depth 12

  load_order-Keeps : (input : VerifyOrderInput) → Keeps (IsSettled id) (load_order env input)
  unfolding load_order
  load_order-Keeps input = elim (Bool-cases (is_empty input.order_id)) [
    | inl e ↦ rw (e, load_order) (search settled_keeps depth 8)
    | inr e ↦ rw (e, load_order) (search settled_keeps depth 8)
  ]

  complete-Keeps : (p : Purpose) (order : Order) → Keeps (IsSettled id) (complete env p order)
  unfolding complete
  complete-Keeps shipment order = search settled_keeps depth 8
  complete-Keeps wallet_topup order = search settled_keeps depth 8

  confirm_current-Keeps :
      (amount : ℤ) (current : Order) (b : Bool)
      → Keeps (IsSettled id) (confirm_current env amount current b)
  unfolding confirm_current is_confirmed
  confirm_current-Keeps amount current true = Keeps-pure current
  confirm_current-Keeps amount current false =
      Keeps-bind _ _ (complete-Keeps current.purpose current) λ u.
        Keeps-bind _ _ (Keeps-now_utc env) λ now.
          Keeps-bind _ _ (update-Keeps id env _ (λ e. refl)) λ v. search settled_keeps depth 8

  confirm-Keeps : (amount : ℤ) (key : Text) → Keeps (IsSettled id) (confirm env amount key)
  unfolding confirm
  confirm-Keeps amount key = search (settled_keeps, confirm_current-Keeps) depth 8

  after_verify-Keeps :
      (order : Order) (r : Option ℤ) → Keeps (IsSettled id) (after_verify env order r)
  unfolding after_verify
  after_verify-Keeps order none = Keeps-fail _
  after_verify-Keeps order (some amount) = search (keeps_rules, confirm-Keeps) depth 8

  verify_loaded-Keeps :
      (order : Order) (s : Status) → Keeps (IsSettled id) (verify_loaded env order s)
  unfolding verify_loaded
  verify_loaded-Keeps order confirmed = Keeps-pure order
  verify_loaded-Keeps order failed = Keeps-fail _
  verify_loaded-Keeps order pending = after_verify-Keeps order (env.psp_verify order.authority)

  verify_order-Keeps : (input : VerifyOrderInput) → Keeps (IsSettled id) (verify_order env input)
  unfolding verify_order
  verify_order-Keeps input = search (keeps_rules, load_order-Keeps, verify_loaded-Keeps) depth 8

  verify_by_authority-Keeps : (a : Text) → Keeps (IsSettled id) (verify_by_authority env a)
  unfolding verify_by_authority
  verify_by_authority-Keeps a = search (settled_keeps, verify_order-Keeps) depth 8

  pub verify_payment_order-Keeps :
      (key authority : Text) → Keeps (IsSettled id) (verify_payment_order env key authority)
  unfolding verify_payment_order
  verify_payment_order-Keeps key authority = verify_order-Keeps _

  pub verify_wallet_topup_order-Keeps :
      (key authority : Text) → Keeps (IsSettled id) (verify_wallet_topup_order env key authority)
  unfolding verify_wallet_topup_order
  verify_wallet_topup_order-Keeps key authority = verify_order-Keeps _

  -- An order that agrees and is not confirmed is another one.
  open-Others :
      (order : Order) → is_confirmed order.status ≡ false → Agrees id order → Others id order
  open-Others order f a = elim (Bool-cases (same order.id id)) [
    | inl e ↦ absurd (clash f (a e))
    | inr e ↦ e
  ]
    where
      clash : {b : Bool} → b ≡ false → b ≡ true → ⊥
      clash f t = cc (f, t)

  fail_current-Keeps :
      (authority success : Text) (order : Order) (b : Bool)
      → is_confirmed order.status ≡ b
      → Agrees id order
      → Keeps (IsSettled id) (fail_current env authority success order b)
  unfolding fail_current
  fail_current-Keeps authority success order true e a = Keeps-pure order
  fail_current-Keeps authority success order false e a =
      Keeps-bind _ _ (update-Keeps id env _ (λ t. cc (open-Others order e a, t)))
        λ u. search settled_keeps depth 8

  fail_payment_order-Keeps :
      (authority success : Text) → Keeps (IsSettled id) (fail_payment_order env authority success)
  unfolding fail_payment_order
  fail_payment_order-Keeps authority success = Keeps-bind _ _ (Keeps-fail_if _ _) λ u.
      Keeps-bind-Yields _ _ (get_by_authority-Keeps id env authority)
        (get_by_authority-Yields id env authority)
        (λ order a. fail_current-Keeps authority success order _ refl a)

  redirect_failed-Keeps :
      (input : HandleCallbackInput) → Keeps (IsSettled id) (redirect_failed env input)
  unfolding redirect_failed
  redirect_failed-Keeps input = search (keeps_rules, fail_payment_order-Keeps)

  redirect-Keeps :
      (input : HandleCallbackInput) (r : Result Order) → Keeps (IsSettled id) (redirect env input r)
  unfolding redirect or_else_error
  redirect-Keeps input (ok order) = Keeps-pure _
  redirect-Keeps input (err e) = record { at = (redirect_failed-Keeps input).at }

  answer_callback-Keeps :
      (input : HandleCallbackInput) (b : Bool) → Keeps (IsSettled id) (answer_callback env input b)
  unfolding answer_callback verify_and_redirect
  answer_callback-Keeps input true = record {
    at = λ w h.
        let verified = verify_by_authority env input.track_id w in
        (redirect-Keeps input verified.0).at verified.1
          ((verify_by_authority-Keeps input.track_id).at w h);
  }
  answer_callback-Keeps input false = redirect_failed-Keeps input

  pub handle_callback-Keeps :
      (input : HandleCallbackInput) → Keeps (IsSettled id) (handle_callback env input)
  unfolding handle_callback
  handle_callback-Keeps input = search (settled_keeps, answer_callback-Keeps) depth 8
