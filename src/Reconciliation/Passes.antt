-- ===== src/Reconciliation/Passes.antt =====
-- What a reconciliation run reports, and that it keeps the ledger.
use airbar_finance.Prelude.{
  ◌≡◌, ◌↔◌, refl, true, false, ◌&&◌, arith, if◌then◌else◌, inl, inr, Bool-cases,
}
use airbar_finance.Prelude.Int.{ℤ, pos, negsuc, IsInt64, in_int64, sub_64, wrap_64, ◌-ℤ◌, eqb_ℤ}
use airbar_finance.Domain.Reconciliation.{Run, passed, failed}
use airbar_finance.Store.World.{Db, Env, ok, ◌>>=◌}
use airbar_finance.Store.Sql.{idle, on_pool, on_querier, now_utc, new_uuid}
use airbar_finance.Ledger.Repository.{sum_debit, sum_credit, sum_global}
use airbar_finance.Store.Keeps.{Keeps, Preserves, keeps_rules}
use airbar_finance.Ledger.Repository.Sums.{IsBalanced, everything}
use airbar_finance.Ledger.Post.Ignores.{Ignores}
use airbar_finance.Accounts.Keeps.{sum_global-Keeps}
use airbar_finance.Reconciliation.{insert_run, create_run, run_of, run_reconciliation}

-- A wrapped difference of two int64 values is zero only if they agree.
sub_64-zero : (a b : ℤ) → IsInt64 a → IsInt64 b → (eqb_ℤ (sub_64 a b) (pos 0) ≡ true) ↔ (a ≡ b)
unfolding sub_64 wrap_64 ◌-ℤ◌
sub_64-zero (pos m) (pos n) h k = ground arith
sub_64-zero (pos m) (negsuc n) h k = ground arith
sub_64-zero (negsuc m) (pos n) h k = ground arith
sub_64-zero (negsuc m) (negsuc n) h k = ground arith

module _ {P : Db → Type 0} (k : Ignores P) (env : Env) where
  insert_run-Preserves : (run : Run) → Preserves P (insert_run run)
  unfolding insert_run
  insert_run-Preserves run = record { at = λ d h. k.runs _ d h }

  create_run-Keeps : (run : Run) → Keeps P (create_run env run)
  unfolding create_run
  create_run-Keeps run = search (keeps_rules, insert_run-Preserves)

  pub run_reconciliation-Keeps : Keeps P (run_reconciliation env)
  unfolding run_reconciliation
  run_reconciliation-Keeps = search (keeps_rules, sum_global-Keeps, create_run-Keeps) depth 12

verdict_iff :
    (a b : ℤ)
    → IsInt64 a
    → IsInt64 b
    → ((if eqb_ℤ (sub_64 a b) (pos 0) then passed else failed) ≡ passed) ↔ (a ≡ b)
verdict_iff a b h k = elim (Bool-cases (eqb_ℤ (sub_64 a b) (pos 0))) [
  | inl e ↦ rw e ((λ _. (sub_64-zero a b h k).0 e), (λ _. refl))
  | inr e ↦ rw e ((λ n. absurd (failed_passed n)), (λ same. cc (e, (sub_64-zero a b h k).1 same)))
]
  where
    failed_passed : failed ≡ passed → ⊥
    failed_passed n = cc n

-- A reconciliation run none of whose database calls fails, on a ledger whose two sums fit into 64
-- bits, returns a run, and its status is PASSED exactly if the sums agree.
pub reconciliation_verdict :
    (env : Env) (d : Db)
    → env.fails 0 ≡ false
    → env.fails 1 ≡ false
    → IsInt64 (sum_debit everything d.entries)
    → IsInt64 (sum_credit everything d.entries)
    → (run : Run) × (((run_reconciliation env (idle d)).0 ≡ ok run)
        × ((run.status ≡ passed) ↔ IsBalanced d))
unfolding run_reconciliation sum_global create_run on_pool on_querier ◌>>=◌ insert_run now_utc
    new_uuid
reconciliation_verdict env d f g h k =
    let fits : in_int64 (sum_debit everything d.entries)
          && in_int64 (sum_credit everything d.entries)
        ≡ true =
      ground arith in
    (
      record (run_of (env.clock 0) (env.clock 1) (sum_debit everything d.entries)
          (sum_credit everything d.entries)) { id = env.uuid 1 },
      (rw (f, fits, g) refl, verdict_iff _ _ h k),
    )
