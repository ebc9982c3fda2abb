-- ===== src/Domain/Withdrawal.antt =====
-- internal/domain/withdrawal/withdrawal.go
use airbar_finance.Prelude.{ℕ, Option}
use airbar_finance.Prelude.Int.{ℤ}
use airbar_finance.Prelude.Text.{Text}

pub data Status : Type 0 where
  pending approved sent_to_bank settled failed completed rejected : Status

pub record Withdrawal : Type 0 where
  pub id : Text
  pub user_id : Text
  pub amount : ℤ
  pub status : Status
  pub destination_hash : Text
  pub provider_ref : Text
  pub payout_channel : Text
  pub receipt_url : Text
  pub reject_reason : Text
  pub processed_at : Option ℕ
  pub created_at : ℕ
  pub updated_at : ℕ
