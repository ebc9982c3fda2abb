-- ===== src/Ledger/Repository/Sums.antt =====
-- Sums of the ledger's entries, as SumGlobal and SumByAccount read them.
use airbar_finance.Prelude.{
  ◌≡◌, refl, Bool, true, List, [], ◌∷◌, ◌++◌, map, inl, inr, Bool-cases, All,
}
use airbar_finance.Prelude.Int.{pos, ◌+ℤ◌, int_laws}
use airbar_finance.Domain.Ledger.{Entry, EntryLine}
use airbar_finance.Store.World.{Db}
use airbar_finance.Ledger.Journal.{entry_of_line}
use airbar_finance.Ledger.Journal.Totals.{total_debit, total_credit, IsOneSided}
use airbar_finance.Ledger.Repository.{sum_debit, sum_credit}

pub sum_debit-append :
    (p : Entry → Bool) (es fs : List Entry)
    → sum_debit p (es ++ fs) ≡ sum_debit p es +ℤ sum_debit p fs
sum_debit-append p [] fs = omega int_laws
sum_debit-append p (e ∷ es) fs = elim (Bool-cases (p e)) [
  | inl h ↦ rw (h, sum_debit-append p es fs) (omega int_laws)
  | inr h ↦ rw (h, sum_debit-append p es fs)
]

pub sum_credit-append :
    (p : Entry → Bool) (es fs : List Entry)
    → sum_credit p (es ++ fs) ≡ sum_credit p es +ℤ sum_credit p fs
sum_credit-append p [] fs = omega int_laws
sum_credit-append p (e ∷ es) fs = elim (Bool-cases (p e)) [
  | inl h ↦ rw (h, sum_credit-append p es fs) (omega int_laws)
  | inr h ↦ rw (h, sum_credit-append p es fs)
]

abbrev pub everything : Entry → Bool
everything e = true

-- The two sides of the whole ledger agree.
abbrev pub IsBalanced : Db → Type 0
IsBalanced d = sum_debit everything d.entries ≡ sum_credit everything d.entries

-- The entries of one-sided lines have the totals of the lines.
pub sum_debit-lines :
    (lines : List EntryLine)
    → All IsOneSided lines
    → sum_debit everything (map entry_of_line lines) ≡ pos (total_debit lines)
sum_debit-lines [] h = refl
sum_debit-lines (line ∷ lines) h = rw (sum_debit-lines lines h.1) (omega (int_laws, h.0))

pub sum_credit-lines :
    (lines : List EntryLine)
    → All IsOneSided lines
    → sum_credit everything (map entry_of_line lines) ≡ pos (total_credit lines)
sum_credit-lines [] h = refl
sum_credit-lines (line ∷ lines) h = rw (sum_credit-lines lines h.1) (omega (int_laws, h.0))
