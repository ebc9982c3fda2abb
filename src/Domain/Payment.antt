-- ===== src/Domain/Payment.antt =====
-- internal/domain/payment/order.go
use airbar_finance.Prelude.{ℕ, Option}
use airbar_finance.Prelude.Int.{ℤ}
use airbar_finance.Prelude.Text.{Text}

pub data Purpose : Type 0 where
  shipment wallet_topup : Purpose

pub data Status : Type 0 where
  pending confirmed failed : Status

pub record Order : Type 0 where
  pub id : Text
  pub shipment_id : Text
  pub payer_user_id : Text
  pub purpose : Purpose
  pub amount : ℤ
  pub status : Status
  pub authority : Text
  pub redirect_url : Text
  pub success_url : Text
  pub failure_url : Text
  pub description : Text
  pub agreed_price : ℤ
  pub verified_at : Option ℕ
  pub created_at : ℕ
  pub updated_at : ℕ
