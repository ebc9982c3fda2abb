-- ===== src/Domain/Gateway.antt =====
-- internal/infrastructure/zibal/client.go: what a payment session is asked for and gives.
use airbar_finance.Prelude.Int.{ℤ}
use airbar_finance.Prelude.Text.{Text}

pub record RequestInput : Type 0 where
  pub amount : ℤ
  pub callback_url : Text
  pub description : Text
  pub order_id : Text

pub record RequestResult : Type 0 where
  pub track_id : Text
  pub redirect_url : Text
