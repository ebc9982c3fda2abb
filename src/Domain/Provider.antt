-- ===== src/Domain/Provider.antt =====
-- internal/domain/provider/event.go
use airbar_finance.Prelude.{ℕ, Bool}
use airbar_finance.Prelude.Text.{Text, text}

abbrev pub provider_zibal : Text
provider_zibal = text "ZIBAL"

pub data EventType : Type 0 where
  request verify callback : EventType

pub record Event : Type 0 where
  pub id : Text
  pub provider : Text
  pub event_type : EventType
  pub payment_order_id : Text
  pub payload : Text
  pub payload_hash : Text
  pub idempotency_key : Text
  pub processed : Bool
  pub created_at : ℕ
