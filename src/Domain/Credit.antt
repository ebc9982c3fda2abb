-- ===== src/Domain/Credit.antt =====
-- internal/domain/credit/grant.go
use airbar_finance.Prelude.{ℕ, Option}
use airbar_finance.Prelude.Int.{ℤ}
use airbar_finance.Prelude.Text.{Text}

pub data GrantStatus : Type 0 where
  active reversed : GrantStatus

pub record Grant : Type 0 where
  pub id : Text
  pub user_id : Text
  pub amount_rials : ℤ
  pub reason : Text
  pub campaign_ref : Text
  pub expires_at : Option ℕ
  pub status : GrantStatus
  pub granted_by : Text
  pub idempotency_key : Text
  pub reversed_at : Option ℕ
  pub reverse_reason : Text
  pub reversed_by : Text
  pub created_at : ℕ
