-- ===== src/Payment/Callback.antt =====
-- internal/usecase/payment/handle_callback.go
use airbar_finance.Prelude.{Bool, true, false, [], ◌++◌}
use airbar_finance.Prelude.Text.{Text, text, same, is_empty}
use airbar_finance.Domain.Errors.{Error, payment, invalid_input}
use airbar_finance.Domain.Payment.{Order}
use airbar_finance.Domain.Provider.{callback}
use airbar_finance.Store.World.{Env, Result, ok, err, M, ◌>>=◌, ◌>>◌, pure, ignore, fail_if}
use airbar_finance.Payment.Events.{create_event}
use airbar_finance.Payment.Verify.{callback_payload, verify_by_authority, fail_payment_order}

pub record HandleCallbackInput : Type 0 where
  pub track_id : Text
  pub success : Text

pub record HandleCallbackResult : Type 0 where
  pub redirect_url : Text
  pub order : Order

-- `if r, failErr := m; failErr == nil { return r }; return err`
unfoldable pub or_else_error : {A : Type 0} → M A → Error → M A
or_else_error m e w = let (r, w') = m w in (elim r [ ok a ↦ ok a | err _ ↦ err e ], w')

to_failure_url : Order → HandleCallbackResult
to_failure_url order = record { redirect_url = order.failure_url; order = order }

unfoldable pub redirect_failed : Env → HandleCallbackInput → M HandleCallbackResult
unfolding to_failure_url
redirect_failed env input = do
  order ← fail_payment_order env input.track_id input.success
  pure (to_failure_url order)

-- What follows the verification.
unfoldable pub redirect : Env → HandleCallbackInput → Result Order → M HandleCallbackResult
redirect env input (ok order) = pure (record { redirect_url = order.success_url; order = order })
redirect env input (err e) = or_else_error (redirect_failed env input) e

unfoldable pub verify_and_redirect : Env → HandleCallbackInput → M HandleCallbackResult
verify_and_redirect env input w =
    let (r, w') = verify_by_authority env input.track_id w in redirect env input r w'

unfoldable pub answer_callback : Env → HandleCallbackInput → Bool → M HandleCallbackResult
answer_callback env input true = verify_and_redirect env input
answer_callback env input false = redirect_failed env input

unfoldable pub handle_callback : Env → HandleCallbackInput → M HandleCallbackResult
handle_callback env input = do
  fail_if (is_empty input.track_id) (payment invalid_input)
  ignore (
      create_event env callback [] (callback_payload input.track_id input.success)
        (text "zibal:callback:"
          ++ (input.track_id ++ (text ":" ++ (input.success ++ text ":received"))))
        false)
  answer_callback env input (same input.success (text "1"))
