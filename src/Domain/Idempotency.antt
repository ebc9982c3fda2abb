-- ===== src/Domain/Idempotency.antt =====
-- internal/domain/idempotency/record.go
use airbar_finance.Prelude.{ℕ, Option, List}
use airbar_finance.Prelude.Text.{Text}

pub data Status : Type 0 where
  processing completed : Status

-- A response snapshot: the fields of a JSON object, in order.
abbrev pub Snapshot : Type 0
Snapshot = List (Text × Text)

pub record Record : Type 0 where
  pub key : Text
  pub scope : Text
  pub resource_type : Text
  pub resource_id : Text
  pub status : Status
  pub response_snapshot : Option Snapshot
  pub created_at : ℕ
  pub completed_at : Option ℕ
