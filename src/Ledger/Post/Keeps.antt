-- ===== src/Ledger/Post/Keeps.antt =====
-- Posting a journal keeps the ledger balanced.
use mathlib.Core.Path.{subst}
use airbar_finance.Prelude.{
  ◌^◌, ◌<◌, ◌≡◌, refl, true, List, [], ◌∷◌, map, All, ap, ◌∙◌, sym, inl, inr, arith, Bool-cases,
  ◌||◌,
}
use airbar_finance.Prelude.Text.{Text, is_empty}
use airbar_finance.Prelude.Int.{pos}
use airbar_finance.Domain.Ledger.{RefType, EntryLine, Journal}
use airbar_finance.Store.World.{Result, ok, err, Env, World}
use airbar_finance.Store.Keeps.{Holds, Keeps, Keeps-bind, Keeps-bind-lift}
use airbar_finance.Ledger.Journal.{entry_of_line, validate_lines, new_journal, journal_of}
use airbar_finance.Ledger.Journal.Totals.{
  IsTyped, total_debit, total_credit, validate_lines_iff, validate_lines_balanced,
}
use airbar_finance.Ledger.Repository.{sides_fit}
use airbar_finance.Ledger.Repository.Sums.{IsBalanced, sum_debit-lines, sum_credit-lines}
use airbar_finance.Ledger.Repository.Inserts.{Fits, Balances, create_journal-Keeps}
use airbar_finance.Ledger.Post.{PostJournalInput, post_journal}
use airbar_finance.Accounts.Keeps.{ensure_for_lines-Keeps}

-- Lines whose two sides cannot pass 64 bits, such as at most two amounts on each side.
abbrev pub IsNarrow : List EntryLine → Type 0
IsNarrow lines = All IsTyped lines → (total_debit lines < 2 ^ 64) × (total_credit lines < 2 ^ 64)

Fits-IsTyped : (lines : List EntryLine) → All Fits (map entry_of_line lines) → All IsTyped lines
Fits-IsTyped [] h = tt
Fits-IsTyped (line ∷ lines) h = (one line h.0, Fits-IsTyped lines h.1)
  where
    one : (line : EntryLine) → sides_fit line.debit line.credit ≡ true → IsTyped line
    one line h = unfold sides_fit in ground arith

validated-Balances :
    (lines : List EntryLine)
    → IsNarrow lines
    → validate_lines lines ≡ ok tt
    → Balances (map entry_of_line lines)
validated-Balances lines narrow valid fits =
    let typed = Fits-IsTyped lines fits in
    let sided = ((validate_lines_iff lines typed).0 valid).1 in
    let (d, c) = narrow typed in
    sum_debit-lines lines sided
    ∙ ap pos (validate_lines_balanced lines typed d c valid)
    ∙ sym (sum_credit-lines lines sided)

journal_of_ok :
    (ref_type : RefType) (ref_id description : Text) (lines : List EntryLine)
    (r : Result (Unit {0})) (journal : Journal)
    → journal_of ref_type ref_id description lines r ≡ ok journal
    → (r ≡ ok tt) × (map entry_of_line lines ≡ journal.entries)
journal_of_ok ref_type ref_id description lines (ok u) journal h = (refl, ground arith)
journal_of_ok ref_type ref_id description lines (err e) journal h = (cc, cc)

-- NewJournal returns a journal only for lines that ValidateLines accepts.
new_journal_valid :
    (ref_type : RefType) (ref_id description : Text) (lines : List EntryLine) (journal : Journal)
    → new_journal ref_type ref_id description lines ≡ ok journal
    → (validate_lines lines ≡ ok tt) × (map entry_of_line lines ≡ journal.entries)
unfolding new_journal
new_journal_valid ref_type ref_id description lines journal h =
    elim (Bool-cases (is_empty ref_type || is_empty ref_id)) [
      | inl unnamed ↦ (cc unnamed, cc unnamed)
      | inr named ↦
          journal_of_ok ref_type ref_id description lines (validate_lines lines) journal
            (rw named at h)
    ]

new_journal-Balances :
    (ref_type : RefType) (ref_id description : Text) (lines : List EntryLine) (journal : Journal)
    → IsNarrow lines
    → new_journal ref_type ref_id description lines ≡ ok journal
    → Balances journal.entries
new_journal-Balances ref_type ref_id description lines journal narrow h =
    let (valid, same) = new_journal_valid ref_type ref_id description lines journal h in
    subst Balances same (validated-Balances lines narrow valid)

-- Posting a journal keeps the ledger balanced, whatever calls fail.
pub post_journal-Keeps :
    (env : Env) (input : PostJournalInput)
    → IsNarrow input.lines
    → Keeps IsBalanced (post_journal env input)
unfolding post_journal
post_journal-Keeps env input narrow = Keeps-bind-lift _ _ λ journal valid.
    Keeps-bind _ _ (ensure_for_lines-Keeps (λ rows d h. h) env input.lines) λ _.
      create_journal-Keeps env journal (
        new_journal-Balances input.ref_type input.ref_id input.description input.lines journal
          narrow valid)

-- One amount from one account to another.
pub two_IsNarrow : (a b : EntryLine) → IsNarrow (a ∷ b ∷ [])
two_IsNarrow a b = λ h. ground arith

-- Posting lines whose two sums of positive amounts are below 2^64 keeps the ledger's debits equal
-- to its credits, in the committed tables and in what an open transaction sees, whatever calls
-- fail.
pub post_journal-IsBalanced :
    (env : Env) (input : PostJournalInput) (w : World)
    → total_debit input.lines < 2 ^ 64
    → total_credit input.lines < 2 ^ 64
    → Holds IsBalanced w
    → Holds IsBalanced (post_journal env input w).1
post_journal-IsBalanced env input w d c h = (post_journal-Keeps env input (λ typed. (d, c))).at w h
