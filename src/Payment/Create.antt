-- ===== src/Payment/Create.antt =====
-- internal/usecase/payment/create_payment_order.go and create_wallet_topup_order.go
use airbar_finance.Prelude.{◌&&◌, ◌||◌, not, true, Option, none, some, [], ◌∷◌, ◌++◌}
use airbar_finance.Prelude.Int.{ℤ, pos, leb_ℤ, ltb_ℤ, eqb_ℤ}
use airbar_finance.Prelude.Text.{Text, text, same, is_empty}
use airbar_finance.Domain.Audit.{str}
use airbar_finance.Domain.Errors.{
  payment, invalid_input, amount_mismatch, escrow_not_ready, escrow, payer_mismatch,
  provider_failed,
}
use airbar_finance.Domain.Gateway.{RequestResult}
use airbar_finance.Domain.Payment.{Order, Purpose, shipment, wallet_topup, pending, failed}
use airbar_finance.Domain.Provider.{request}
use airbar_finance.Store.World.{Env, M, ◌>>=◌, ◌>>◌, pure, fail, ignore, fail_if}
use airbar_finance.Audit.{emit_payment_created, emit_payment_status_changed}
use airbar_finance.Escrow.Repository.{get_by_shipment_id}
use airbar_finance.Escrow.Status.{can_fund}
use airbar_finance.Payment.Repository.{create, update, status_text, purpose_text}
use airbar_finance.Payment.Events.{create_event}

unfoldable pub callback_url : Text → Text
callback_url public_base_url = public_base_url ++ text "/api/v1/zibal/callback"

pub record CreatePaymentOrderInput : Type 0 where
  pub shipment_id : Text
  pub payer_user_id : Text
  pub amount : ℤ
  pub success_url : Text
  pub failure_url : Text
  pub description : Text
  pub agreed_price : ℤ

pub record CreateWalletTopupOrderInput : Type 0 where
  pub user_id : Text
  pub amount : ℤ
  pub success_url : Text
  pub failure_url : Text
  pub description : Text

abbrev pub new_order : Purpose → CreatePaymentOrderInput → Order
new_order purpose input = record {
  id = [];
  shipment_id = input.shipment_id;
  payer_user_id = input.payer_user_id;
  purpose = purpose;
  amount = input.amount;
  status = pending;
  authority = [];
  redirect_url = [];
  success_url = input.success_url;
  failure_url = input.failure_url;
  description = input.description;
  agreed_price = input.agreed_price;
  verified_at = none;
  created_at = 0;
  updated_at = 0;
}

-- The input of a topup order as that of an order without a shipment.
abbrev pub topup_as_payment : CreateWalletTopupOrderInput → CreatePaymentOrderInput
topup_as_payment input = record {
  shipment_id = [];
  payer_user_id = input.user_id;
  amount = input.amount;
  success_url = input.success_url;
  failure_url = input.failure_url;
  description = input.description;
  agreed_price = pos 0;
}

-- What both use cases do with the provider's answer.
unfoldable pub after_request : Env → Order → Option RequestResult → M Order
after_request env order none = do
  let rejected = record order { status = failed }
  ignore (update env rejected)
  ignore (emit_payment_status_changed env rejected.id (status_text rejected.status))
  fail provider_failed
after_request env order (some result) = do
  let opened = record order { authority = result.track_id; redirect_url = result.redirect_url }
  update env opened
  ignore (
      create_event env request opened.id
        ((text "trackId", str result.track_id) ∷ (text "orderId", str opened.id) ∷ [])
        (text "zibal:request:" ++ opened.id) true)
  pure opened

-- The order in the database, and the session with the provider.
unfoldable pub open_order : Env → Order → M Order
open_order env new = do
  order ← create env new
  ignore (emit_payment_created env order.id (purpose_text order.purpose) (status_text order.status))
  after_request env order (
      env.psp_request (record {
        amount = order.amount;
        callback_url = callback_url env.public_base_url;
        description = order.description;
        order_id = order.id;
      }))

unfoldable pub create_payment_order : Env → CreatePaymentOrderInput → M Order
create_payment_order env input = do
  fail_if (is_empty input.shipment_id || is_empty input.payer_user_id || leb_ℤ input.amount (pos 0))
      (payment invalid_input)
  fail_if (is_empty input.success_url || is_empty input.failure_url) (payment invalid_input)
  fail_if (ltb_ℤ (pos 0) input.agreed_price && not (eqb_ℤ input.agreed_price input.amount))
      (payment amount_mismatch)
  e ← get_by_shipment_id env input.shipment_id
  fail_if (not (can_fund e.status)) (payment escrow_not_ready)
  fail_if (not (same e.payer_user_id input.payer_user_id)) (escrow payer_mismatch)
  fail_if (not (eqb_ℤ e.amount input.amount)) (payment amount_mismatch)
  open_order env (new_order shipment input)

unfoldable pub create_wallet_topup_order : Env → CreateWalletTopupOrderInput → M Order
create_wallet_topup_order env input = do
  fail_if (is_empty input.user_id || leb_ℤ input.amount (pos 0)) (payment invalid_input)
  fail_if (is_empty input.success_url || is_empty input.failure_url) (payment invalid_input)
  open_order env (new_order wallet_topup (topup_as_payment input))
