-- ===== src/Domain/Audit.antt =====
-- internal/domain/audit/event.go
use airbar_finance.Prelude.{ℕ, List}
use airbar_finance.Prelude.Int.{ℤ}
use airbar_finance.Prelude.Text.{Text, text}

abbrev pub aggregate_escrow : Text
aggregate_escrow = text "escrow"

abbrev pub aggregate_payment_order : Text
aggregate_payment_order = text "payment_order"

abbrev pub aggregate_withdrawal : Text
aggregate_withdrawal = text "withdrawal"

abbrev pub aggregate_credit_grant : Text
aggregate_credit_grant = text "credit_grant"

pub data EventType : Type 0 where
  escrow_created escrow_status_changed payment_created payment_status_changed : EventType
  withdrawal_created withdrawal_status_changed credit_granted credit_reversed : EventType

-- A value of a payload map.
pub data Value : Type 0 where
  str : Text → Value
  int : ℤ → Value

abbrev pub Payload : Type 0
Payload = List (Text × Value)

pub record Event : Type 0 where
  pub id : Text
  pub aggregate_type : Text
  pub aggregate_id : Text
  pub event_type : EventType
  pub payload : Payload
  pub created_at : ℕ
