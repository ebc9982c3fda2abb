-- ===== src/Ledger/Journal.antt =====
-- internal/domain/ledger/journal.go: validation of entry lines, and NewJournal.
pub mod Totals
use airbar_finance.Prelude.{ℕ, Bool, true, false, ◌&&◌, ◌||◌, List, [], ◌∷◌, map, if◌then◌else◌}
use airbar_finance.Prelude.Int.{ℤ, pos, ltb_ℤ, eqb_ℤ, add_64}
use airbar_finance.Prelude.Text.{Text, is_empty}
use airbar_finance.Domain.Errors.{
  Error, LedgerError, unbalanced_journal, empty_journal, invalid_entry, ledger,
}
use airbar_finance.Domain.Ledger.{RefType, EntryLine, Entry, Journal}
use airbar_finance.Store.World.{Result, ok, err}

-- The three tests that the loop of ValidateLines makes on a line.
pub valid_line : EntryLine → Bool
valid_line line =
    if ltb_ℤ line.debit (pos 0) || ltb_ℤ line.credit (pos 0)
    then false
    else if (ltb_ℤ (pos 0) line.debit && ltb_ℤ (pos 0) line.credit)
        || (eqb_ℤ line.debit (pos 0) && eqb_ℤ line.credit (pos 0))
    then false
    else if is_empty line.account_code
    then false
    else true

-- The loop, over `totalDebit` and `totalCredit`.
pub check_lines : ℤ → ℤ → List EntryLine → Result (Unit {0})
check_lines total_debit total_credit [] =
    if eqb_ℤ total_debit total_credit then ok tt else err (ledger unbalanced_journal)
check_lines total_debit total_credit (line ∷ lines) =
    let rest =
      check_lines (add_64 total_debit line.debit) (add_64 total_credit line.credit) lines in
    if valid_line line then rest else err (ledger invalid_entry)

unfoldable pub validate_lines : List EntryLine → Result (Unit {0})
unfolding check_lines valid_line
validate_lines [] = err (ledger empty_journal)
validate_lines (line ∷ lines) = check_lines (pos 0) (pos 0) (line ∷ lines)

-- The Entry of a line, with the fields that the repository fills in left empty.
abbrev pub entry_of_line : EntryLine → Entry
entry_of_line line = record {
  id = [];
  journal_id = [];
  account_code = line.account_code;
  debit = line.debit;
  credit = line.credit;
  created_at = 0;
}

abbrev pub journal_of : RefType → Text → Text → List EntryLine → Result (Unit {0}) → Result Journal
journal_of ref_type ref_id description lines (err e) = err e
journal_of ref_type ref_id description lines (ok _) = ok (record {
  id = [];
  ref_type = ref_type;
  ref_id = ref_id;
  description = description;
  entries = map entry_of_line lines;
  created_at = 0;
})

unfoldable pub new_journal : RefType → Text → Text → List EntryLine → Result Journal
new_journal ref_type ref_id description lines =
    if is_empty ref_type || is_empty ref_id
    then err (ledger invalid_entry)
    else journal_of ref_type ref_id description lines (validate_lines lines)
