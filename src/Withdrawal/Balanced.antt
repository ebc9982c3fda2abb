-- ===== src/Withdrawal/Balanced.antt =====
-- The payout use cases keep a property that looks at no table that they write but the ledger's, such
-- as that the ledger is balanced.
use airbar_finance.Prelude.{ℕ, inl, inr, Bool-cases, any}
use airbar_finance.Prelude.Int.{pos, leb_ℤ}
use airbar_finance.Prelude.Text.{Text, same}
use airbar_finance.Domain.Withdrawal.{Withdrawal}
use airbar_finance.Store.World.{Db, Env}
use airbar_finance.Store.Keeps.{Keeps, Preserves, Keeps-ignore, keeps_rules}
use airbar_finance.Ledger.Post.Keeps.{two_IsNarrow}
use airbar_finance.Ledger.Post.Ignores.{Ignores, posting-Keeps}
use airbar_finance.Accounts.Keeps.{get_balance-Keeps}
use airbar_finance.Audit.{emit-Keeps, emit_withdrawal_created, emit_withdrawal_status_changed}
use airbar_finance.Withdrawal.Repository.{
  insert_withdrawal, create, select_withdrawal, get_by_id, update_withdrawal, update,
}
use airbar_finance.Withdrawal.Create.{CreateWithdrawalInput, reserve, create_withdrawal}
use airbar_finance.Withdrawal.Lifecycle.{
  emit_status, store, PayoutInput, approve_withdrawal, mark_withdrawal_sent, settle_withdrawal,
  process_withdrawal,
}
use airbar_finance.Withdrawal.Reversal.{reject, reject_withdrawal, fail_payout, fail_withdrawal}

module _ {P : Db → Type 0} (k : Ignores P) where
  insert_withdrawal-Preserves : (row : Withdrawal) → Preserves P (insert_withdrawal row)
  unfolding insert_withdrawal
  insert_withdrawal-Preserves row = record {
    at = λ d h. elim (Bool-cases (leb_ℤ row.amount (pos 0))) [
      | inl bad ↦ rw bad h
      | inr good ↦ rw good (k.withdrawals _ d h)
    ];
  }

  select_withdrawal-Preserves : (id : Text) → Preserves P (select_withdrawal id)
  unfolding select_withdrawal
  select_withdrawal-Preserves id = record { at = λ d h. h }

  update_withdrawal-Preserves : (w : Withdrawal) (now : ℕ) → Preserves P (update_withdrawal w now)
  unfolding update_withdrawal
  update_withdrawal-Preserves w now = record {
    at = λ d h. elim (Bool-cases (any (λ r. same r.id w.id) d.withdrawals)) [
      | inl known ↦ rw known (k.withdrawals _ d h)
      | inr missing ↦ rw missing h
    ];
  }

ruleset withdrawal_statements = (
  keeps_rules, insert_withdrawal-Preserves, select_withdrawal-Preserves,
  update_withdrawal-Preserves,
)

module _ {P : Db → Type 0} (k : Ignores P) (env : Env) where
  create-Keeps : (row : Withdrawal) → Keeps P (create env row)
  unfolding create
  create-Keeps row = search withdrawal_statements depth 10

  get_by_id-Keeps : (id : Text) → Keeps P (get_by_id env id)
  unfolding get_by_id
  get_by_id-Keeps id = search withdrawal_statements depth 10

  update-Keeps : (row : Withdrawal) → Keeps P (update env row)
  unfolding update
  update-Keeps row = search withdrawal_statements depth 10

  emit_withdrawal_created-Keeps : (i s t : Text) → Keeps P (emit_withdrawal_created env i s t)
  unfolding emit_withdrawal_created
  emit_withdrawal_created-Keeps i s t = emit-Keeps k.finance_events env _ _ _ _

  emit_status-Keeps : (row : Withdrawal) → Keeps P (emit_status env row)
  unfolding emit_status emit_withdrawal_status_changed
  emit_status-Keeps row = Keeps-ignore _ (emit-Keeps k.finance_events env _ _ _ _)

  store-Keeps : (row : Withdrawal) → Keeps P (store env row)
  unfolding store
  store-Keeps row = search (keeps_rules, update-Keeps, emit_status-Keeps) depth 10

ruleset withdrawal_keeps = (
  keeps_rules, create-Keeps, get_by_id-Keeps, store-Keeps, emit_withdrawal_created-Keeps,
  get_balance-Keeps, posting-Keeps, two_IsNarrow,
)

module _ {P : Db → Type 0} (k : Ignores P) (env : Env) where
  reserve-Keeps : (input : CreateWithdrawalInput) → Keeps P (reserve env input)
  unfolding reserve
  reserve-Keeps input = search withdrawal_keeps depth 20

  pub create_withdrawal-Keeps :
      (input : CreateWithdrawalInput) → Keeps P (create_withdrawal env input)
  unfolding create_withdrawal
  create_withdrawal-Keeps input = search (withdrawal_keeps, reserve-Keeps) depth 20

  pub approve_withdrawal-Keeps : (id : Text) → Keeps P (approve_withdrawal env id)
  unfolding approve_withdrawal
  approve_withdrawal-Keeps id = search withdrawal_keeps depth 20

  pub mark_withdrawal_sent-Keeps : (input : PayoutInput) → Keeps P (mark_withdrawal_sent env input)
  unfolding mark_withdrawal_sent
  mark_withdrawal_sent-Keeps input = search withdrawal_keeps depth 20

  pub settle_withdrawal-Keeps : (id : Text) → Keeps P (settle_withdrawal env id)
  unfolding settle_withdrawal
  settle_withdrawal-Keeps id = search withdrawal_keeps depth 20

  pub process_withdrawal-Keeps : (input : PayoutInput) → Keeps P (process_withdrawal env input)
  unfolding process_withdrawal
  process_withdrawal-Keeps input = search withdrawal_keeps depth 20

  reject-Keeps : (id reason : Text) → Keeps P (reject env id reason)
  unfolding reject
  reject-Keeps id reason = search withdrawal_keeps depth 20

  pub reject_withdrawal-Keeps : (id reason : Text) → Keeps P (reject_withdrawal env id reason)
  unfolding reject_withdrawal
  reject_withdrawal-Keeps id reason = search (keeps_rules, reject-Keeps)

  fail_payout-Keeps : (id reason : Text) → Keeps P (fail_payout env id reason)
  unfolding fail_payout
  fail_payout-Keeps id reason = search withdrawal_keeps depth 20

  pub fail_withdrawal-Keeps : (id reason : Text) → Keeps P (fail_withdrawal env id reason)
  unfolding fail_withdrawal
  fail_withdrawal-Keeps id reason = search (keeps_rules, fail_payout-Keeps)
