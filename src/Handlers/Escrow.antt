-- ===== src/Handlers/Escrow.antt =====
-- internal/delivery/grpc/handlers/escrow.go
use airbar_finance.Prelude.{ℕ, Option}
use airbar_finance.Prelude.Text.{Text, text}
use airbar_finance.Domain.Errors.{escrow, invalid_amount}
use airbar_finance.Domain.Escrow.{Escrow, FundingSource, psp, wallet, promo_credit, mixed, unset}
use airbar_finance.Store.World.{Env, M, ◌>>=◌, pure, lift, map_error}
use airbar_finance.Amounts.{parse_amount, format_amount}
use airbar_finance.Escrow.Status.{status_text}
use airbar_finance.Escrow.Lifecycle.{create_escrow, get_escrow, mark_delivered, freeze_escrow}
use airbar_finance.Escrow.Pay.{pay_from_wallet}
use airbar_finance.Escrow.Fund.{FundEscrowInput, fund_escrow}
use airbar_finance.Escrow.Release.{release_escrow}
use airbar_finance.Escrow.Refund.{refund_escrow, partial_refund_escrow}
use airbar_finance.Handlers.Errors.{map_escrow_error}

pub record CreateEscrowRequest : Type 0 where
  pub shipment_id : Text
  pub carrier_user_id : Text
  pub payer_user_id : Text
  pub amount : Text

pub record PayFromWalletRequest : Type 0 where
  pub shipment_id : Text
  pub payer_user_id : Text
  pub amount : Text

pub record EscrowResponse : Type 0 where
  pub id : Text
  pub shipment_id : Text
  pub carrier_user_id : Text
  pub payer_user_id : Text
  pub amount : Text
  pub status : Text
  pub payment_order_id : Text
  pub funding_source : Text
  pub promo_credit_funded : Text
  pub created_at : ℕ
  pub updated_at : ℕ
  pub funded_at : Option ℕ
  pub released_at : Option ℕ
  pub refunded_at : Option ℕ

unfoldable pub funding_source_text : FundingSource → Text
funding_source_text psp = text "PSP"
funding_source_text wallet = text "WALLET"
funding_source_text promo_credit = text "PROMO_CREDIT"
funding_source_text mixed = text "MIXED"
funding_source_text unset = text ""

unfoldable pub to_escrow_response : Escrow → EscrowResponse
to_escrow_response e = record {
  id = e.id;
  shipment_id = e.shipment_id;
  carrier_user_id = e.carrier_user_id;
  payer_user_id = e.payer_user_id;
  amount = format_amount e.amount;
  status = status_text e.status;
  payment_order_id = e.payment_order_id;
  funding_source = funding_source_text e.funding_source;
  promo_credit_funded = format_amount e.promo_credit_funded;
  created_at = e.created_at;
  updated_at = e.updated_at;
  funded_at = e.funded_at;
  released_at = e.released_at;
  refunded_at = e.refunded_at;
}

-- The use case's error as a status, or the response.
unfoldable pub respond : M Escrow → M EscrowResponse
respond m = map_error map_escrow_error m >>= λ e. pure (to_escrow_response e)

module _ (env : Env) where
  unfoldable pub handle_create_escrow : CreateEscrowRequest → M EscrowResponse
  handle_create_escrow req = respond do
    amount ← lift (parse_amount (escrow invalid_amount) req.amount)
    create_escrow env (record {
      shipment_id = req.shipment_id;
      carrier_user_id = req.carrier_user_id;
      payer_user_id = req.payer_user_id;
      amount = amount;
    })

  unfoldable pub handle_get_escrow : Text → M EscrowResponse
  handle_get_escrow shipment_id = respond (get_escrow env shipment_id)

  unfoldable pub handle_fund_escrow : FundEscrowInput → M EscrowResponse
  handle_fund_escrow req = respond (fund_escrow env req)

  unfoldable pub handle_pay_from_wallet : PayFromWalletRequest → M EscrowResponse
  handle_pay_from_wallet req = respond do
    amount ← lift (parse_amount (escrow invalid_amount) req.amount)
    pay_from_wallet env (record {
      shipment_id = req.shipment_id;
      payer_user_id = req.payer_user_id;
      amount = amount;
    })

  unfoldable pub handle_mark_delivered : Text → M EscrowResponse
  handle_mark_delivered shipment_id = respond (mark_delivered env shipment_id)

  unfoldable pub handle_freeze_escrow : Text → M EscrowResponse
  handle_freeze_escrow shipment_id = respond (freeze_escrow env shipment_id)

  unfoldable pub handle_release_escrow : Text → M EscrowResponse
  handle_release_escrow shipment_id = respond (release_escrow env shipment_id)

  unfoldable pub handle_refund_escrow : Text → M EscrowResponse
  handle_refund_escrow shipment_id = respond (refund_escrow env shipment_id)

  unfoldable pub handle_partial_refund_escrow : Text → Text → M EscrowResponse
  handle_partial_refund_escrow shipment_id refund_amount = respond do
    amount ← lift (parse_amount (escrow invalid_amount) refund_amount)
    partial_refund_escrow env shipment_id amount
