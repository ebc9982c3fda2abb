-- ===== src/Domain/Account.antt =====
-- internal/domain/wallet/account.go and internal/domain/credit/account.go, which are alike.
use airbar_finance.Prelude.{ℕ}
use airbar_finance.Prelude.Text.{Text}

pub record Account : Type 0 where
  pub id : Text
  pub user_id : Text
  pub currency : Text
  pub account_code : Text
  pub created_at : ℕ
