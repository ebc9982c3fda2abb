-- ===== src/Domain/Reconciliation.antt =====
-- internal/domain/reconciliation/run.go. `findings` has the four keys that the use case writes.
use airbar_finance.Prelude.{ℕ, Bool, Option}
use airbar_finance.Prelude.Int.{ℤ}
use airbar_finance.Prelude.Text.{Text}

pub data Status : Type 0 where
  passed failed : Status

pub record Findings : Type 0 where
  pub global_debit : ℤ
  pub global_credit : ℤ
  pub imbalance : ℤ
  pub balanced : Bool

pub record Run : Type 0 where
  pub id : Text
  pub status : Status
  pub findings : Findings
  pub started_at : ℕ
  pub completed_at : Option ℕ
