-- ===== src/Handlers/Payment.antt =====
-- internal/delivery/grpc/handlers/payment.go
use airbar_finance.Prelude.{ℕ, true, false, Option}
use airbar_finance.Prelude.Int.{ℤ, pos}
use airbar_finance.Prelude.Text.{Text, is_empty}
use airbar_finance.Domain.Errors.{payment, PaymentError}
use airbar_finance.Domain.Payment.{Order}
use airbar_finance.Store.World.{Env, M, Result, ok, ◌>>=◌, pure, lift, map_error}
use airbar_finance.Amounts.{parse_amount, format_amount}
use airbar_finance.Payment.Repository.{status_text, purpose_text, get_payment_order}
use airbar_finance.Payment.Create.{create_payment_order, create_wallet_topup_order}
use airbar_finance.Payment.Verify.{verify_payment_order, verify_wallet_topup_order}
use airbar_finance.Handlers.Errors.{map_payment_error}

pub record CreatePaymentOrderRequest : Type 0 where
  pub shipment_id : Text
  pub payer_user_id : Text
  pub amount : Text
  pub agreed_price : Text
  pub success_url : Text
  pub failure_url : Text
  pub description : Text

pub record CreateWalletTopupRequest : Type 0 where
  pub user_id : Text
  pub amount : Text
  pub success_url : Text
  pub failure_url : Text
  pub description : Text

pub record PaymentOrderResponse : Type 0 where
  pub id : Text
  pub shipment_id : Text
  pub payer_user_id : Text
  pub purpose : Text
  pub amount : Text
  pub status : Text
  pub authority : Text
  pub redirect_url : Text
  pub created_at : ℕ
  pub verified_at : Option ℕ

unfoldable pub to_payment_order_response : Order → PaymentOrderResponse
to_payment_order_response order = record {
  id = order.id;
  shipment_id = order.shipment_id;
  payer_user_id = order.payer_user_id;
  purpose = purpose_text order.purpose;
  amount = format_amount order.amount;
  status = status_text order.status;
  authority = order.authority;
  redirect_url = order.redirect_url;
  created_at = order.created_at;
  verified_at = order.verified_at;
}

unfoldable pub respond : M Order → M PaymentOrderResponse
respond m = map_error map_payment_error m >>= λ order. pure (to_payment_order_response order)

-- An agreed price that is not given is 0.
unfoldable pub parse_agreed_price : Text → Result ℤ
parse_agreed_price raw = elim (is_empty raw) [
  | true ↦ ok (pos 0)
  | false ↦ parse_amount (payment PaymentError.invalid_input) raw
]

module _ (env : Env) where
  unfoldable pub handle_create_payment_order : CreatePaymentOrderRequest → M PaymentOrderResponse
  handle_create_payment_order req = respond do
    amount ← lift (parse_amount (payment PaymentError.invalid_input) req.amount)
    agreed_price ← lift (parse_agreed_price req.agreed_price)
    create_payment_order env (record {
      shipment_id = req.shipment_id;
      payer_user_id = req.payer_user_id;
      amount = amount;
      success_url = req.success_url;
      failure_url = req.failure_url;
      description = req.description;
      agreed_price = agreed_price;
    })

  unfoldable pub handle_get_payment_order : Text → M PaymentOrderResponse
  handle_get_payment_order order_id = respond (get_payment_order env order_id)

  unfoldable pub handle_verify_payment_order : Text → Text → M PaymentOrderResponse
  handle_verify_payment_order order_id authority =
      respond (verify_payment_order env order_id authority)

  unfoldable pub handle_create_wallet_topup_order :
      CreateWalletTopupRequest → M PaymentOrderResponse
  handle_create_wallet_topup_order req = respond do
    amount ← lift (parse_amount (payment PaymentError.invalid_input) req.amount)
    create_wallet_topup_order env (record {
      user_id = req.user_id;
      amount = amount;
      success_url = req.success_url;
      failure_url = req.failure_url;
      description = req.description;
    })

  unfoldable pub handle_verify_wallet_topup_order : Text → Text → M PaymentOrderResponse
  handle_verify_wallet_topup_order order_id authority =
      respond (verify_wallet_topup_order env order_id authority)
