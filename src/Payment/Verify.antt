-- ===== src/Payment/Verify.antt =====
-- internal/usecase/payment/verify_order.go
use airbar_finance.Prelude.{Bool, true, false, not, Option, none, some, [], ◌∷◌, ◌++◌}
use airbar_finance.Prelude.Int.{ℤ, pos, eqb_ℤ}
use airbar_finance.Prelude.Text.{Text, text, is_empty}
use airbar_finance.Domain.Audit.{Payload, str, int}
use airbar_finance.Domain.Errors.{
  payment, invalid_input, invalid_purpose, amount_mismatch, provider_verify_failed,
}
use airbar_finance.Domain.Ledger.{wallet_topup as wallet_topup_ref}
use airbar_finance.Domain.Payment.{
  Order, Purpose, shipment, wallet_topup, Status, pending, confirmed, failed,
}
use airbar_finance.Domain.Provider.{verify, callback}
use airbar_finance.Store.World.{Env, M, ◌>>=◌, ◌>>◌, pure, fail, ignore, fail_if}
use airbar_finance.Store.Sql.{with_tx, now_utc}
use airbar_finance.Ledger.Account.{ir_psp_clearing, user_wallet_account}
use airbar_finance.Ledger.Post.{PostJournalInput, post_journal}
use airbar_finance.Audit.{emit_payment_status_changed}
use airbar_finance.Escrow.Fund.{FundEscrowInput, fund_escrow}
use airbar_finance.Payment.Repository.{
  get_by_id, get_by_authority, update, status_text, is_confirmed,
}
use airbar_finance.Payment.Events.{create_event}

-- A purpose that is not given is `none`.
pub record VerifyOrderInput : Type 0 where
  pub order_id : Text
  pub authority : Text
  pub purpose : Option Purpose

unfoldable pub load_order : Env → VerifyOrderInput → M Order
load_order env input = elim (is_empty input.order_id) [
  | false ↦ get_by_id env input.order_id
  | true ↦
      fail_if (is_empty (env.trim_space input.authority)) (payment invalid_input)
      >> get_by_authority env (env.trim_space input.authority)
]

unfoldable pub same_purpose : Purpose → Purpose → Bool
same_purpose shipment shipment = true
same_purpose wallet_topup wallet_topup = true
same_purpose _ _ = false

unfoldable pub is_asked : Option Purpose → Purpose → Bool
unfolding same_purpose
is_asked none purpose = true
is_asked (some asked) purpose = same_purpose purpose asked

abbrev pub topup_input : Order → PostJournalInput
topup_input order = record {
  ref_type = wallet_topup_ref;
  ref_id = order.id ++ text ":topup";
  description = text "Wallet topup via Zibal";
  lines =
      record { account_code = ir_psp_clearing; debit = order.amount; credit = pos 0 }
      ∷ record {
        account_code = user_wallet_account order.payer_user_id;
        debit = pos 0;
        credit = order.amount;
      }
      ∷ [];
}

abbrev pub fund_input : Order → FundEscrowInput
fund_input order = record { shipment_id = order.shipment_id; payment_order_id = order.id }

-- The ledger's part of a confirmation.
unfoldable pub complete : Env → Purpose → Order → M (Unit {0})
complete env shipment order = fund_escrow env (fund_input order) >> pure tt
complete env wallet_topup order = post_journal env (topup_input order) >> pure tt

abbrev pub verify_payload : Order → ℤ → Payload
verify_payload order amount =
    (text "trackId", str order.authority)
    ∷ (text "orderId", str order.id)
    ∷ (text "amount", int amount)
    ∷ []

-- What the transaction does with the order as it reads it again.
unfoldable pub confirm_current : Env → ℤ → Order → Bool → M Order
confirm_current env amount current true = pure current
confirm_current env amount current false = do
  complete env current.purpose current
  now ← now_utc env
  let done_order = record current { status = confirmed; verified_at = some now }
  update env done_order
  ignore (emit_payment_status_changed env done_order.id (status_text done_order.status))
  create_event env verify done_order.id (verify_payload done_order amount)
      (text "zibal:verify:" ++ done_order.id) true
  pure done_order

unfoldable pub confirm : Env → ℤ → Text → M Order
confirm env amount id = do
  current ← get_by_id env id
  confirm_current env amount current (is_confirmed current.status)

-- The provider's answer.
unfoldable pub after_verify : Env → Order → Option ℤ → M Order
after_verify env order none = fail (payment provider_verify_failed)
after_verify env order (some amount) = do
  fail_if (not (eqb_ℤ amount order.amount)) (payment amount_mismatch)
  with_tx env (confirm env amount order.id)

unfoldable pub verify_loaded : Env → Order → Status → M Order
verify_loaded env order confirmed = pure order
verify_loaded env order failed = fail (payment provider_verify_failed)
verify_loaded env order pending = after_verify env order (env.psp_verify order.authority)

-- `Execute` of VerifyOrder.
unfoldable pub verify_order : Env → VerifyOrderInput → M Order
verify_order env input = do
  order ← load_order env input
  fail_if (not (is_asked input.purpose order.purpose)) (payment invalid_purpose)
  verify_loaded env order order.status

unfoldable pub verify_by_authority : Env → Text → M Order
verify_by_authority env authority = do
  order ← get_by_authority env authority
  verify_order env (record { order_id = order.id; authority = []; purpose = some order.purpose })

unfoldable pub verify_payment_order : Env → Text → Text → M Order
verify_payment_order env order_id authority =
    verify_order env
      (record { order_id = order_id; authority = authority; purpose = some shipment })

unfoldable pub verify_wallet_topup_order : Env → Text → Text → M Order
verify_wallet_topup_order env order_id authority =
    verify_order env
      (record { order_id = order_id; authority = authority; purpose = some wallet_topup })

abbrev pub callback_payload : Text → Text → Payload
callback_payload track_id success =
    (text "trackId", str track_id) ∷ (text "success", str success) ∷ []

unfoldable pub fail_current : Env → Text → Text → Order → Bool → M Order
fail_current env authority success order true = pure order
fail_current env authority success order false = do
  let failed_order = record order { status = failed }
  update env failed_order
  ignore (emit_payment_status_changed env failed_order.id (status_text failed_order.status))
  ignore (
      create_event env callback failed_order.id (callback_payload authority success)
        (text "zibal:callback:" ++ (authority ++ (text ":" ++ success))) true)
  pure failed_order

-- `Execute` of FailPaymentOrder.
unfoldable pub fail_payment_order : Env → Text → Text → M Order
fail_payment_order env authority success = do
  fail_if (is_empty authority) (payment invalid_input)
  order ← get_by_authority env authority
  fail_current env authority success order (is_confirmed order.status)
