-- ===== src/Ledger/Repository.antt =====
-- internal/infrastructure/postgres/repository/ledger.go: journals and entries in the database.
pub mod Sums
pub mod Inserts
pub mod Atomic
use airbar_finance.Prelude.{
  ℕ, Bool, true, false, ◌&&◌, ◌||◌, Option, none, some, List, [], ◌∷◌, ◌++◌, any, if◌then◌else◌,
}
use airbar_finance.Prelude.Int.{ℤ, pos, ◌+ℤ◌, ltb_ℤ, leb_ℤ, eqb_ℤ, in_int64}
use airbar_finance.Prelude.Text.{Text, same}
use airbar_finance.Domain.Errors.{
  Error, DatabaseError, failure, unique_violation, check_violation, database, ledger,
  duplicate_journal,
}
use airbar_finance.Domain.Ledger.{Entry, Journal, JournalRow}
use airbar_finance.Store.World.{Db, Env, Result, ok, err, M, ◌>>=◌, ◌>>◌, pure, lift, map_error}
use airbar_finance.Store.Sql.{
  Statement, done, violates, on_pool, on_querier, with_tx, new_uuid, now_utc,
}

-- INSERT INTO ledger_journals, under UNIQUE (ref_type, ref_id).
unfoldable pub insert_journal : JournalRow → Statement (Unit {0})
unfolding same
insert_journal row d =
    if any (λ r. same r.ref_type row.ref_type && same r.ref_id row.ref_id) d.journals
    then violates unique_violation
    else done tt (record d { journals = d.journals ++ (row ∷ []) })

-- The CHECK constraints of ledger_entries, on BIGINT columns.
unfoldable pub sides_fit : ℤ → ℤ → Bool
sides_fit debit credit =
    (in_int64 debit && in_int64 credit)
    && ((ltb_ℤ (pos 0) debit && eqb_ℤ credit (pos 0))
        || (ltb_ℤ (pos 0) credit && eqb_ℤ debit (pos 0)))

-- INSERT INTO ledger_entries.
unfoldable pub insert_entry : Entry → Statement (Unit {0})
insert_entry e d =
    if sides_fit e.debit e.credit
    then done tt (record d { entries = d.entries ++ (e ∷ []) })
    else violates check_violation

-- isUniqueViolation decides on ErrDuplicateJournal.
unfoldable pub duplicate_error : Error → Error
duplicate_error (database unique_violation) = ledger duplicate_journal
duplicate_error e = e

-- The loop over `journal.Entries`; the result is the entries with their ids.
unfoldable pub insert_entries : Env → Text → List Entry → M (List Entry)
insert_entries env journal_id [] = pure []
insert_entries env journal_id (line ∷ lines) = do
  entry_id ← new_uuid env
  created_at ← now_utc env
  on_querier env (
      insert_entry
        (record line { id = entry_id; journal_id = journal_id; created_at = created_at }))
  rest ← insert_entries env journal_id lines
  pure (record line { id = entry_id; journal_id = journal_id } ∷ rest)

-- `createJournal`, on the transaction of the context.
unfoldable pub create_journal_in_tx : Env → Journal → M Journal
create_journal_in_tx env journal = do
  journal_id ← new_uuid env
  created_at ← now_utc env
  map_error duplicate_error (
      on_querier env (
        insert_journal (record {
          id = journal_id;
          ref_type = journal.ref_type;
          ref_id = journal.ref_id;
          description = journal.description;
          created_at = created_at;
        })))
  entries ← insert_entries env journal_id journal.entries
  pure (record journal { id = journal_id; created_at = created_at; entries = entries })

unfoldable pub create_journal_on : Env → Option Db → Journal → M Journal
create_journal_on env none journal = with_tx env (create_journal_in_tx env journal)
create_journal_on env (some v) journal = create_journal_in_tx env journal

-- `CreateJournal`: in the open transaction, or in one of its own.
unfoldable pub create_journal : Env → Journal → M Journal
unfolding create_journal_on
create_journal env journal w = create_journal_on env w.tx journal w

-- SELECT COALESCE(SUM(debit), 0), COALESCE(SUM(credit), 0) FROM ledger_entries WHERE …
abbrev pub sum_debit : (Entry → Bool) → List Entry → ℤ
sum_debit p [] = pos 0
sum_debit p (e ∷ es) = if p e then e.debit +ℤ sum_debit p es else sum_debit p es

abbrev pub sum_credit : (Entry → Bool) → List Entry → ℤ
sum_credit p [] = pos 0
sum_credit p (e ∷ es) = if p e then e.credit +ℤ sum_credit p es else sum_credit p es

unfoldable pub select_sums : (Entry → Bool) → Statement (ℤ × ℤ)
select_sums p d = done (sum_debit p d.entries, sum_credit p d.entries) d

-- Scan into two int64 values: a sum that does not fit is an error.
unfoldable pub scan_sums : ℤ × ℤ → Result (ℤ × ℤ)
scan_sums (debit, credit) =
    if in_int64 debit && in_int64 credit then ok (debit, credit) else err (database failure)

-- The three queries run on the pool, also within a transaction.
unfoldable pub sum_by_account : Env → Text → M (ℤ × ℤ)
unfolding select_sums scan_sums same
sum_by_account env account_code = do
  sums ← on_pool env (select_sums (λ e. same e.account_code account_code))
  lift (scan_sums sums)

unfoldable pub sum_global : Env → M (ℤ × ℤ)
unfolding select_sums scan_sums
sum_global env = do sums ← on_pool env (select_sums (λ e. true)); lift (scan_sums sums)
