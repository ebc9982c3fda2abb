-- ===== src/Domain/Escrow.antt =====
-- internal/domain/escrow/escrow.go
use airbar_finance.Prelude.{ℕ, Option}
use airbar_finance.Prelude.Int.{ℤ}
use airbar_finance.Prelude.Text.{Text}

pub data Status : Type 0 where
  created funded locked dispute_window frozen released refunded partially_refunded : Status

-- `unset` is the empty string of an escrow that is not funded.
pub data FundingSource : Type 0 where
  psp wallet promo_credit mixed unset : FundingSource

pub record Escrow : Type 0 where
  pub id : Text
  pub shipment_id : Text
  pub carrier_user_id : Text
  pub payer_user_id : Text
  pub amount : ℤ
  pub status : Status
  pub payment_order_id : Text
  pub funding_source : FundingSource
  pub promo_credit_funded : ℤ
  pub funded_at : Option ℕ
  pub released_at : Option ℕ
  pub refunded_at : Option ℕ
  pub created_at : ℕ
  pub updated_at : ℕ
