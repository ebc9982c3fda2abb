-- ===== src/Ledger/Post/Ignores.antt =====
-- Properties of the tables that look at the journals and entries alone, or at neither of them nor at
-- the other tables that the use cases of escrows, payouts and grants write.
use airbar_finance.Prelude.{
  ℕ, ◌≢◌, ◌++◌, map, Option, none, some, List, [], ◌∷◌, any, ◌&&◌, inl, inr, Bool-cases,
}
use airbar_finance.Prelude.Text.{Text, same}
use airbar_finance.Domain.Ledger.{Entry, Journal, JournalRow}
use airbar_finance.Ledger.Repository.{
  insert_journal, insert_entry, sides_fit, insert_entries, create_journal_in_tx, create_journal_on,
  create_journal,
}
use airbar_finance.Accounts.Keeps.{ensure_for_lines-Keeps}
use airbar_finance.Domain.Account.{Account}
use airbar_finance.Domain.Audit
use airbar_finance.Domain.Credit.{Grant}
use airbar_finance.Domain.Escrow.{Escrow, locked}
use airbar_finance.Escrow.Repository.{inserted_row, set_columns}
use airbar_finance.Domain.Reconciliation.{Run}
use airbar_finance.Domain.Withdrawal.{Withdrawal}
use airbar_finance.Store.World.{Db, Env}
use airbar_finance.Store.Keeps.{
  Keeps, Preserves, Keeps-pure, Keeps-lift, Keeps-bind, Keeps-new_uuid, Keeps-now_utc,
  Keeps-on_querier, Keeps-with_tx, keeps_rules,
}
use airbar_finance.Ledger.Repository.Sums.{IsBalanced}
use airbar_finance.Ledger.Post.{PostJournalInput, post_journal}
use airbar_finance.Ledger.Post.Keeps.{IsNarrow, post_journal-Keeps}

-- `P` does not look at the tables named, but may hold of escrows that are not LOCKED, and posting
-- narrow lines keeps it.
pub record Ignores (P : Db → Type 0) : Type 0 where
  pub wallet_accounts :
      (rows : List Account) (d : Db) → P d → P (record d { wallet_accounts = rows })
  pub credit_accounts :
      (rows : List Account) (d : Db) → P d → P (record d { credit_accounts = rows })
  pub escrow_insertion :
      (e : Escrow) (d : Db)
      → e.status ≢ locked
      → P d
      → P (record d { escrows = d.escrows ++ (inserted_row e ∷ []) })
  pub escrow_update :
      (e : Escrow) (now : ℕ) (d : Db)
      → e.status ≢ locked
      → P d
      → P (record d { escrows = map (set_columns e now) d.escrows })
  pub grants : (rows : List Grant) (d : Db) → P d → P (record d { grants = rows })
  pub withdrawals : (rows : List Withdrawal) (d : Db) → P d → P (record d { withdrawals = rows })
  pub finance_events :
      (rows : List Audit.Event) (d : Db) → P d → P (record d { finance_events = rows })
  pub runs : (rows : List Run) (d : Db) → P d → P (record d { runs = rows })
  pub posting :
      (env : Env) (input : PostJournalInput)
      → IsNarrow input.lines
      → Keeps P (post_journal env input)

pub IsBalanced-Ignores : Ignores IsBalanced
IsBalanced-Ignores = record {
  wallet_accounts = λ rows d h. h;
  credit_accounts = λ rows d h. h;
  escrow_insertion = λ e d n h. h;
  escrow_update = λ e now d n h. h;
  grants = λ rows d h. h;
  withdrawals = λ rows d h. h;
  finance_events = λ rows d h. h;
  runs = λ rows d h. h;
  posting = post_journal-Keeps;
}

pub posting-Keeps :
    {P : Db → Type 0}
    → Ignores P
    → (env : Env) (input : PostJournalInput) → IsNarrow input.lines
    → Keeps P (post_journal env input)
posting-Keeps k env input narrow = k.posting env input narrow

-- A property that looks at neither journals nor entries is kept by posting whatever lines.
module _ {P : Db → Type 0}
    (journals : (rows : List JournalRow) (d : Db) → P d → P (record d { journals = rows }))
    (entries : (rows : List Entry) (d : Db) → P d → P (record d { entries = rows }))
    (wallets : (rows : List Account) (d : Db) → P d → P (record d { wallet_accounts = rows })) where
  insert_journal-Preserves : (row : JournalRow) → Preserves P (insert_journal row)
  unfolding insert_journal
  insert_journal-Preserves row = record {
    at = λ d h.
        elim (Bool-cases
          (any (λ r. same r.ref_type row.ref_type && same r.ref_id row.ref_id) d.journals)) [
            | inl taken ↦ rw taken h
            | inr free ↦ rw free (journals _ d h)
          ];
  }

  insert_entry-Preserves : (e : Entry) → Preserves P (insert_entry e)
  unfolding insert_entry
  insert_entry-Preserves e = record {
    at = λ d h. elim (Bool-cases (sides_fit e.debit e.credit)) [
      | inl fits ↦ rw fits (entries _ d h)
      | inr refused ↦ rw refused h
    ];
  }

  insert_entries-Keeps :
      (env : Env) (id : Text) (lines : List Entry) → Keeps P (insert_entries env id lines)
  unfolding insert_entries
  insert_entries-Keeps env id [] = Keeps-pure []
  insert_entries-Keeps env id (line ∷ lines) = Keeps-bind _ _ (Keeps-new_uuid env) λ entry_id.
      Keeps-bind _ _ (Keeps-now_utc env) λ created_at.
        Keeps-bind _ _ (Keeps-on_querier env _ (insert_entry-Preserves _))
          λ inserted. Keeps-bind _ _ (insert_entries-Keeps env id lines) λ rest. Keeps-pure _

  create_journal_in_tx-Keeps :
      (env : Env) (journal : Journal) → Keeps P (create_journal_in_tx env journal)
  unfolding create_journal_in_tx
  create_journal_in_tx-Keeps env journal =
      search (keeps_rules, insert_journal-Preserves, insert_entries-Keeps) depth 12

  create_journal_on-Keeps :
      (env : Env) (t : Option Db) (journal : Journal) → Keeps P (create_journal_on env t journal)
  unfolding create_journal_on
  create_journal_on-Keeps env none journal =
      Keeps-with_tx env _ (create_journal_in_tx-Keeps env journal)
  create_journal_on-Keeps env (some v) journal = create_journal_in_tx-Keeps env journal

  create_journal-Keeps : (env : Env) (journal : Journal) → Keeps P (create_journal env journal)
  unfolding create_journal
  create_journal-Keeps env journal = record {
    at = λ w h. (create_journal_on-Keeps env w.tx journal).at w h;
  }

  pub unposted-Keeps : (env : Env) (input : PostJournalInput) → Keeps P (post_journal env input)
  unfolding post_journal
  unposted-Keeps env input = Keeps-bind _ _ (Keeps-lift _) λ journal.
      Keeps-bind _ _ (ensure_for_lines-Keeps wallets env input.lines)
        (λ ensured. create_journal-Keeps env journal)
