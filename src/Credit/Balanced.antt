-- ===== src/Credit/Balanced.antt =====
-- The use cases of grants keep a property that looks at no table that they write but the ledger's, such
-- as that the ledger is balanced.
use airbar_finance.Prelude.{ℕ, Bool, true, false, inl, inr, Bool-cases, any}
use airbar_finance.Prelude.Int.{ℤ, pos, leb_ℤ}
use airbar_finance.Prelude.Text.{Text, same}
use airbar_finance.Domain.Credit.{Grant}
use airbar_finance.Store.World.{Db, Env, pure}
use airbar_finance.Store.Keeps.{
  Keeps, Preserves, Keeps-bind, Keeps-on_pool, Keeps-pure, keeps_rules,
}
use airbar_finance.Ledger.Post.Keeps.{two_IsNarrow}
use airbar_finance.Ledger.Post.Ignores.{Ignores, posting-Keeps}
use airbar_finance.Accounts.Credit.{ensure_credit_account}
use airbar_finance.Accounts.Keeps.{ensure_credit_account-Keeps}
use airbar_finance.Audit.{emit-Keeps, emit_credit_granted, emit_credit_reversed}
use airbar_finance.Credit.Repository.{
  insert_grant, create_grant, select_grant, get_grant_by_id, is_open, update_reversed, not_reversed,
  mark_reversed,
}
use airbar_finance.Credit.Grants.{
  GrantCreditInput, grant_in_tx, grant_credit, ReverseCreditInput, reverse_in_tx,
  reverse_credit_grant,
}

module _ {P : Db → Type 0} (k : Ignores P) where
  insert_grant-Preserves : (row : Grant) → Preserves P (insert_grant row)
  unfolding insert_grant
  insert_grant-Preserves row = record {
    at = λ d h. elim (Bool-cases (leb_ℤ row.amount_rials (pos 0))) [
      | inl bad ↦ rw bad h
      | inr good ↦
          elim (Bool-cases (any (λ r. same r.idempotency_key row.idempotency_key) d.grants)) [
            | inl taken ↦ rw (good, taken) h
            | inr free ↦ rw (good, free) (k.grants _ d h)
          ]
    ];
  }

  select_grant-Preserves : (id : Text) → Preserves P (select_grant id)
  unfolding select_grant
  select_grant-Preserves id = record { at = λ d h. h }

  update_reversed-Preserves :
      (id : Text) (t : ℕ) (why who : Text) → Preserves P (update_reversed id t why who)
  unfolding update_reversed
  update_reversed-Preserves id t why who = record {
    at = λ d h. elim (Bool-cases (any (is_open id) d.grants)) [
      | inl known ↦ rw known (k.grants _ d h)
      | inr missing ↦ rw missing h
    ];
  }

module _ {P : Db → Type 0} (k : Ignores P) (env : Env) where
  create_grant-Keeps : (grant : Grant) → Keeps P (create_grant env grant)
  unfolding create_grant
  create_grant-Keeps grant = search (keeps_rules, insert_grant-Preserves) depth 12

  get_grant_by_id-Keeps : (id : Text) → Keeps P (get_grant_by_id env id)
  unfolding get_grant_by_id
  get_grant_by_id-Keeps id = search (keeps_rules, select_grant-Preserves)

  not_reversed-Keeps : (id : Text) → Keeps P (not_reversed env id)
  unfolding not_reversed
  not_reversed-Keeps id = search (keeps_rules, get_grant_by_id-Keeps)

  mark_reversed-Keeps :
      (id : Text) (t : ℕ) (why who : Text) → Keeps P (mark_reversed env id t why who)
  unfolding mark_reversed
  mark_reversed-Keeps id t why who =
      Keeps-bind _ _ (Keeps-on_pool env _ (update_reversed-Preserves k id t why who)) explained
    where
      explained :
          (updated : Bool) → Keeps P (elim updated [ true ↦ pure tt | false ↦ not_reversed env id ])
      explained true = Keeps-pure tt
      explained false = not_reversed-Keeps id

  emit_credit_granted-Keeps :
      (i u : Text) (a : ℤ) (s : Text) → Keeps P (emit_credit_granted env i u a s)
  unfolding emit_credit_granted
  emit_credit_granted-Keeps i u a s = emit-Keeps k.finance_events env _ _ _ _

  emit_credit_reversed-Keeps :
      (i u : Text) (a : ℤ) (s : Text) → Keeps P (emit_credit_reversed env i u a s)
  unfolding emit_credit_reversed
  emit_credit_reversed-Keeps i u a s = emit-Keeps k.finance_events env _ _ _ _

  ensured : (u : Text) → Keeps P (ensure_credit_account env u)
  ensured = ensure_credit_account-Keeps k.credit_accounts env

ruleset credit_keeps = (
  keeps_rules, create_grant-Keeps, get_grant_by_id-Keeps, mark_reversed-Keeps,
  emit_credit_granted-Keeps, emit_credit_reversed-Keeps, ensured, posting-Keeps, two_IsNarrow,
)

module _ {P : Db → Type 0} (k : Ignores P) (env : Env) where
  grant_in_tx-Keeps : (input : GrantCreditInput) → Keeps P (grant_in_tx env input)
  unfolding grant_in_tx
  grant_in_tx-Keeps input = search credit_keeps depth 20

  pub grant_credit-Keeps : (input : GrantCreditInput) → Keeps P (grant_credit env input)
  unfolding grant_credit
  grant_credit-Keeps input = search (keeps_rules, grant_in_tx-Keeps)

  reverse_in_tx-Keeps :
      (input : ReverseCreditInput) (grant : Grant) (now : ℕ)
      → Keeps P (reverse_in_tx env input grant now)
  unfolding reverse_in_tx
  reverse_in_tx-Keeps input grant now = search credit_keeps depth 20

  pub reverse_credit_grant-Keeps :
      (input : ReverseCreditInput) → Keeps P (reverse_credit_grant env input)
  unfolding reverse_credit_grant
  reverse_credit_grant-Keeps input = search (credit_keeps, reverse_in_tx-Keeps) depth 20
