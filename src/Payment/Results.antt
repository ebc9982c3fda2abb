-- ===== src/Payment/Results.antt =====
-- What the payment use cases return.
use airbar_finance.Prelude.{◌≡◌, refl, ◌⊎◌, inl, inr, Bool, true, false, Option, none, some}
use airbar_finance.Prelude.Int.{ℤ}
use airbar_finance.Prelude.Text.{Text}
use airbar_finance.Domain.Payment.{Order, Status, pending, confirmed, failed}
use airbar_finance.Store.World.{Env, World, Result, ok, err, pure}
use airbar_finance.Store.Yields.{Satisfies}
use airbar_finance.Store.Returns.{
  Returns, Returns-pure, Returns-fail, Returns-bind, Returns-with_tx,
}
use airbar_finance.Payment.Repository.{is_confirmed}
use airbar_finance.Payment.Verify.{
  VerifyOrderInput, confirm_current, confirm, after_verify, verify_loaded, verify_order,
  verify_by_authority,
}
use airbar_finance.Payment.Callback.{
  HandleCallbackInput, HandleCallbackResult, redirect_failed, redirect, verify_and_redirect,
  answer_callback, handle_callback, or_else_error,
}

abbrev pub Confirmed : Order → Type 0
Confirmed order = is_confirmed order.status ≡ true

module _ (env : Env) where
  confirm_current-Returns :
      (amount : ℤ) (current : Order) (b : Bool)
      → is_confirmed current.status ≡ b
      → Returns Confirmed (confirm_current env amount current b)
  unfolding confirm_current is_confirmed
  confirm_current-Returns amount current true e = Returns-pure current e
  confirm_current-Returns amount current false e = Returns-bind _ _ λ u.
      Returns-bind _ _
        λ now. Returns-bind _ _ λ v. Returns-bind _ _ λ x. Returns-bind _ _ λ y. Returns-pure _ refl

  after_verify-Returns :
      (order : Order) (r : Option ℤ) → Returns Confirmed (after_verify env order r)
  unfolding after_verify confirm
  after_verify-Returns order none = Returns-fail _
  after_verify-Returns order (some amount) = Returns-bind _ _ λ u.
      Returns-with_tx env _
        (Returns-bind _ _ λ current. confirm_current-Returns amount current _ refl)

  verify_loaded-Returns :
      (order : Order) (s : Status)
      → order.status ≡ s
      → Returns Confirmed (verify_loaded env order s)
  unfolding verify_loaded is_confirmed
  verify_loaded-Returns order confirmed e = Returns-pure order (rw e refl)
  verify_loaded-Returns order failed e = Returns-fail _
  verify_loaded-Returns order pending e =
      after_verify-Returns order (env.psp_verify order.authority)

  verify_order-Returns : (input : VerifyOrderInput) → Returns Confirmed (verify_order env input)
  unfolding verify_order
  verify_order-Returns input =
      Returns-bind _ _ λ order. Returns-bind _ _ λ u. verify_loaded-Returns order order.status refl

  verify_by_authority-Returns : (a : Text) → Returns Confirmed (verify_by_authority env a)
  unfolding verify_by_authority
  verify_by_authority-Returns a = Returns-bind _ _ λ order. verify_order-Returns _

-- The payer is sent to the page of success of a confirmed order, or to that of failure.
abbrev pub Redirects : HandleCallbackResult → Type 0
Redirects result =
    (Confirmed result.order × (result.redirect_url ≡ result.order.success_url))
    ⊎ (result.redirect_url ≡ result.order.failure_url)

module _ (env : Env) where
  redirect_failed-Returns :
      (input : HandleCallbackInput) → Returns Redirects (redirect_failed env input)
  unfolding redirect_failed
  redirect_failed-Returns input = Returns-bind _ _ λ order. Returns-pure _ (inr refl)

  redirect-Satisfies :
      (input : HandleCallbackInput) (r : Result Order) (w : World)
      → Satisfies Confirmed r
      → Satisfies Redirects (redirect env input r w).0
  unfolding redirect or_else_error pure
  redirect-Satisfies input (ok order) w c = inl (c, refl)
  redirect-Satisfies input (err e) w c =
      or_error (redirect_failed env input w).0 ((redirect_failed-Returns input).at w)
    where
      or_error :
          (r : Result HandleCallbackResult)
          → Satisfies Redirects r
          → Satisfies Redirects (elim r [ ok a ↦ ok a | err x ↦ err e ])
      or_error (ok a) s = s
      or_error (err x) s = tt

  answer_callback-Returns :
      (input : HandleCallbackInput) (b : Bool) → Returns Redirects (answer_callback env input b)
  unfolding answer_callback verify_and_redirect
  answer_callback-Returns input true = record {
    at = λ w. redirect-Satisfies input _ _ ((verify_by_authority-Returns env input.track_id).at w);
  }
  answer_callback-Returns input false = redirect_failed-Returns input

  handle_callback-Returns :
      (input : HandleCallbackInput) → Returns Redirects (handle_callback env input)
  unfolding handle_callback
  handle_callback-Returns input =
      Returns-bind _ _ λ u. Returns-bind _ _ λ v. answer_callback-Returns input _

-- A verification that returns an order returns one that is confirmed, whatever it is given.
pub verify_order-Confirmed :
    (env : Env) (input : VerifyOrderInput) (w : World)
    → Satisfies Confirmed (verify_order env input w).0
verify_order-Confirmed env input w = (verify_order-Returns env input).at w

-- The callback sends the payer to the page of success only with a confirmed order, and else to the
-- page of failure of the order that it returns, whatever it is given.
pub callback_redirect :
    (env : Env) (input : HandleCallbackInput) (w : World)
    → Satisfies Redirects (handle_callback env input w).0
callback_redirect env input w = (handle_callback-Returns env input).at w
