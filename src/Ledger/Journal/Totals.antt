-- ===== src/Ledger/Journal/Totals.antt =====
-- What ValidateLines accepts, against the exact sums of a journal's two sides.
use airbar_finance.Prelude.{
  ℕ, ◌+◌, ◌^◌, ◌%◌, ◌<◌, ◌≡◌, ◌↔◌, ◌⊎◌, refl, true, false, List, [], ◌∷◌, arith, inl, inr,
  Bool-cases, All, length, sym, ap, ◌∙◌,
}
use airbar_finance.Prelude.Int.{ℤ, pos, pos_part, neg_part, ◌+ℤ◌, eqb_ℤ, add_64, wrap_64, IsInt64}
use airbar_finance.Prelude.Text.{is_empty}
use airbar_finance.Domain.Errors.{ledger, invalid_entry}
use airbar_finance.Domain.Ledger.{EntryLine}
use airbar_finance.Store.World.{ok, err}
use airbar_finance.Ledger.Journal.{valid_line, check_lines, validate_lines}

-- The exact sums of the two sides, as numbers: lines that pass are not negative.
abbrev pub total_debit : List EntryLine → ℕ
total_debit [] = 0
total_debit (line ∷ lines) = pos_part line.debit + total_debit lines

abbrev pub total_credit : List EntryLine → ℕ
total_credit [] = 0
total_credit (line ∷ lines) = pos_part line.credit + total_credit lines

-- A line with exactly one positive side, none negative, and an account.
pub record IsOneSided (line : EntryLine) : Type 0 where
  pub no_negative : (neg_part line.debit ≡ 0) × (neg_part line.credit ≡ 0)
  pub some_side : 0 < pos_part line.debit + pos_part line.credit
  pub one_side : (pos_part line.debit ≡ 0) ⊎ (pos_part line.credit ≡ 0)
  pub has_account : is_empty line.account_code ≡ false

valid_line_iff : (line : EntryLine) → (valid_line line ≡ true) ↔ IsOneSided line
unfolding valid_line
valid_line_iff line = ground arith

-- An accumulator holds the wrapped sum so far.
add_64-wrap :
    (total k : ℕ) → k < 2 ^ 63 → add_64 (wrap_64 (pos total)) (pos k) ≡ wrap_64 (pos (total + k))
unfolding add_64 wrap_64 ◌+ℤ◌
add_64-wrap total k h = ground arith

wrap_64-eq :
    (m n : ℕ) → (eqb_ℤ (wrap_64 (pos m)) (wrap_64 (pos n)) ≡ true) ↔ (m % 2 ^ 64 ≡ n % 2 ^ 64)
unfolding wrap_64
wrap_64-eq m n = ground arith

one_sided_debit : (line : EntryLine) → IsOneSided line → line.debit ≡ pos (pos_part line.debit)
one_sided_debit line h = ground arith

one_sided_credit : (line : EntryLine) → IsOneSided line → line.credit ≡ pos (pos_part line.credit)
one_sided_credit line h = ground arith

-- Every amount is an int64, as the type of the fields says.
pub record IsTyped (line : EntryLine) : Type 0 where
  pub debit_int64 : IsInt64 line.debit
  pub credit_int64 : IsInt64 line.credit

check_lines_step :
    (d c : ℕ) (line : EntryLine) (lines : List EntryLine)
    → IsTyped line
    → IsOneSided line
    → check_lines (wrap_64 (pos d)) (wrap_64 (pos c)) (line ∷ lines)
      ≡ check_lines
          (wrap_64 (pos (d + pos_part line.debit)))
          (wrap_64 (pos (c + pos_part line.credit)))
          lines
unfolding check_lines
check_lines_step d c line lines t one =
    rw ((valid_line_iff line).1 one) (cc (debit_step, credit_step))
  where
    debit_step : add_64 (wrap_64 (pos d)) line.debit ≡ wrap_64 (pos (d + pos_part line.debit))
    debit_step =
        ap (add_64 (wrap_64 (pos d))) (one_sided_debit line one)
        ∙ add_64-wrap d (pos_part line.debit) t.debit_int64.0

    credit_step : add_64 (wrap_64 (pos c)) line.credit ≡ wrap_64 (pos (c + pos_part line.credit))
    credit_step =
        ap (add_64 (wrap_64 (pos c))) (one_sided_credit line one)
        ∙ add_64-wrap c (pos_part line.credit) t.credit_int64.0

check_lines_invalid :
    (d c : ℤ) (line : EntryLine) (lines : List EntryLine)
    → valid_line line ≡ false
    → check_lines d c (line ∷ lines) ≡ err (ledger invalid_entry)
unfolding check_lines
check_lines_invalid d c line lines h = rw h

abbrev Accepted : ℕ → ℕ → List EntryLine → Type 0
Accepted d c lines =
    All IsOneSided lines × ((d + total_debit lines) % 2 ^ 64 ≡ (c + total_credit lines) % 2 ^ 64)

check_lines_accepts :
    (d c : ℕ) (lines : List EntryLine)
    → All IsTyped lines
    → check_lines (wrap_64 (pos d)) (wrap_64 (pos c)) lines ≡ ok tt
    → Accepted d c lines
check_lines_accepts d c [] t h =
    (tt, omega (arith, (wrap_64-eq d c).0 (unfold check_lines in ground arith)))
check_lines_accepts d c (line ∷ lines) t h = elim (Bool-cases (valid_line line)) [
  | inl valid ↦
      let one = (valid_line_iff line).0 valid in
      let (rest, sums) =
        check_lines_accepts (d + pos_part line.debit) (c + pos_part line.credit) lines t.1
          (sym (check_lines_step d c line lines t.0 one) ∙ h) in
      ((one, rest), omega (arith, sums))
  | inr invalid ↦ cc (check_lines_invalid (wrap_64 (pos d)) (wrap_64 (pos c)) line lines invalid)
]

check_lines_complete :
    (d c : ℕ) (lines : List EntryLine)
    → All IsTyped lines
    → Accepted d c lines
    → check_lines (wrap_64 (pos d)) (wrap_64 (pos c)) lines ≡ ok tt
check_lines_complete d c [] t h = unfold check_lines in rw ((wrap_64-eq d c).1 (omega (arith, h.1)))
check_lines_complete d c (line ∷ lines) t h =
    check_lines_step d c line lines t.0 h.0.0
    ∙ check_lines_complete (d + pos_part line.debit) (c + pos_part line.credit) lines t.1
        (h.0.1, omega (arith, h.1))

wrap_zero : wrap_64 (pos 0) ≡ pos 0
unfolding wrap_64
wrap_zero = refl

-- For lines with int64 amounts, ValidateLines accepts exactly the non-empty lists of lines that
-- name an account and have one positive and no negative side, with sums of the two sides that
-- agree modulo 2^64.
pub validate_lines_iff :
    (lines : List EntryLine)
    → All IsTyped lines
    → (validate_lines lines ≡ ok tt)
      ↔ (0 < length lines)
        × All IsOneSided lines
        × (total_debit lines % 2 ^ 64 ≡ total_credit lines % 2 ^ 64)
unfolding validate_lines
validate_lines_iff [] t = (λ h. cc, λ h. absurd (omega arith))
validate_lines_iff (line ∷ lines) t = (
  λ h.
      let (sided, sums) = check_lines_accepts 0 0 (line ∷ lines) t (rw wrap_zero h) in
      (omega arith, sided, omega (arith, sums)),
  λ h. rw (← wrap_zero) (check_lines_complete 0 0 (line ∷ lines) t (h.1, omega (arith, h.2))),
)

-- Lines with int64 amounts that ValidateLines accepts have equal sums of debits and credits, as
-- numbers without wrap-around, if both sums are below 2^64.
pub validate_lines_balanced :
    (lines : List EntryLine)
    → All IsTyped lines
    → total_debit lines < 2 ^ 64
    → total_credit lines < 2 ^ 64
    → validate_lines lines ≡ ok tt
    → total_debit lines ≡ total_credit lines
validate_lines_balanced lines t d c h = omega (arith, ((validate_lines_iff lines t).0 h).2)

-- ValidateLines accepts lines with int64 amounts, each with exactly one positive side and an
-- account, whose debits exceed their credits by 2^64.
pub validate_lines_wraps :
    (lines : List EntryLine)
    → All IsTyped lines
    → All IsOneSided lines
    → total_debit lines ≡ total_credit lines + 2 ^ 64
    → validate_lines lines ≡ ok tt
validate_lines_wraps [] t sided e = absurd (omega arith)
validate_lines_wraps (line ∷ lines) t sided e =
    (validate_lines_iff (line ∷ lines) t).1 (omega arith, sided, omega arith)
