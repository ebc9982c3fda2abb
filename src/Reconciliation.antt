-- ===== src/Reconciliation.antt =====
-- internal/usecase/reconciliation and the repository of its runs.
pub mod Passes
use airbar_finance.Prelude.{
  ℕ, Bool, ◌||◌, Option, none, some, List, [], ◌∷◌, ◌++◌, find, leb, if◌then◌else◌,
}
use airbar_finance.Prelude.Int.{ℤ, pos, eqb_ℤ, sub_64}
use airbar_finance.Prelude.Text.{Text, same, is_empty}
use airbar_finance.Domain.Errors.{run_not_found}
use airbar_finance.Domain.Reconciliation.{Run, Findings, Status, passed, failed}
use airbar_finance.Store.World.{Db, Env, M, Result, ok, err, ◌>>=◌, ◌>>◌, pure, lift, fail_if}
use airbar_finance.Store.Sql.{Statement, done, on_querier, new_uuid, now_utc}
use airbar_finance.Ledger.Repository.{sum_global}

unfoldable pub insert_run : Run → Statement (Unit {0})
insert_run run d = done tt (record d { runs = d.runs ++ (run ∷ []) })

unfoldable pub create_run : Env → Run → M Run
create_run env run = do
  id ← new_uuid env
  on_querier env (insert_run (record run { id = id }))
  pure (record run { id = id })

abbrev pub findings_of : ℤ → ℤ → Findings
findings_of total_debit total_credit =
    let imbalance = sub_64 total_debit total_credit in
    record {
      global_debit = total_debit;
      global_credit = total_credit;
      imbalance = imbalance;
      balanced = eqb_ℤ imbalance (pos 0);
    }

abbrev pub run_of : ℕ → ℕ → ℤ → ℤ → Run
run_of started completed total_debit total_credit =
    let findings = findings_of total_debit total_credit in
    record {
      id = [];
      status = if findings.balanced then passed else failed;
      findings = findings;
      started_at = started;
      completed_at = some completed;
    }

-- `Execute` of RunReconciliation.
unfoldable pub run_reconciliation : Env → M Run
run_reconciliation env = do
  started ← now_utc env
  (total_debit, total_credit) ← sum_global env
  completed ← now_utc env
  create_run env (run_of started completed total_debit total_credit)

unfoldable pub select_run : Text → Statement (Option Run)
select_run id d = done (find (λ r. same r.id id) d.runs) d

abbrev pub or_not_found : Option Run → Result Run
or_not_found none = err run_not_found
or_not_found (some run) = ok run

-- `Execute` of GetReconciliationRun. That the id is no UUID is a failure of the call.
unfoldable pub get_reconciliation_run : Env → Text → M Run
get_reconciliation_run env id = do
  fail_if (is_empty id) run_not_found
  row ← on_querier env (select_run id)
  lift (or_not_found row)

-- The newest run first; runs of one time stay in the table's order.
unfoldable pub place : Run → List Run → List Run
place row [] = row ∷ []
place row (other ∷ rows) =
    let rest = place row rows in
    if leb other.started_at row.started_at then row ∷ other ∷ rows else other ∷ rest

unfoldable pub newest_first : List Run → List Run
unfolding place
newest_first [] = []
newest_first (row ∷ rows) = place row (newest_first rows)

unfoldable pub select_runs : Statement (List Run)
select_runs d = done (newest_first d.runs) d

unfoldable pub list_reconciliation_runs : Env → M (List Run)
list_reconciliation_runs env = on_querier env select_runs
