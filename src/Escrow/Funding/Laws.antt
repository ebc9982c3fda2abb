-- ===== src/Escrow/Funding/Laws.antt =====
-- How a payment is split between promotional credit and wallet, and a refund between them.
use airbar_finance.Prelude.{
  ℕ, ◌+◌, ◌-◌, ◌^◌, ◌%◌, ◌≤◌, ◌<◌, ◌≡◌, refl, ap, All, true, false, ◌||◌, List, ◌∷◌, arith, ltb,
  inl, inr, Bool-cases, if◌then◌else◌,
}
use airbar_finance.Prelude.Int.{pos, ltb_ℤ, leb_ℤ, ◌+ℤ◌, ◌-ℤ◌, add_64, sub_64, wrap_64}
use airbar_finance.Prelude.Text.{Text, is_empty}
use airbar_finance.Domain.Errors.{escrow, insufficient_payer_funds}
use airbar_finance.Domain.Ledger.{EntryLine}
use airbar_finance.Store.World.{ok, err}
use airbar_finance.Ledger.Account.{
  user_wallet_account, user_promo_credit_account, shipment_escrow_account,
}
use airbar_finance.Ledger.Journal.{validate_lines}
use airbar_finance.Ledger.Journal.Totals.{
  IsTyped, IsOneSided, total_debit, total_credit, validate_lines_iff,
}
use airbar_finance.Escrow.Funding.{
  resolve_payer_funding_split, refund_allocation, build_escrow_pay_journal_lines,
}

-- The difference of two non-negative int64 values.
pub sub_64_pos : (m n : ℕ) → n ≤ m → m < 2 ^ 63 → sub_64 (pos m) (pos n) ≡ pos (m - n)
unfolding sub_64 wrap_64 ◌-ℤ◌
sub_64_pos m n h r = ground arith

add_64_pos : (m n : ℕ) → m + n < 2 ^ 63 → add_64 (pos m) (pos n) ≡ pos (m + n)
unfolding add_64 wrap_64 ◌+ℤ◌
add_64_pos m n h = ground arith

abbrev pub min : ℕ → ℕ → ℕ
min a b = if ltb a b then a else b

least_pos : (a b : ℕ) → (if ltb_ℤ (pos a) (pos b) then pos a else pos b) ≡ pos (min a b)
least_pos a b = ground arith

-- For a positive int64 amount and two balances that are not negative, ResolvePayerFundingSplit
-- fails with ErrInsufficientPayerFunds exactly if the balances together are less than the amount;
-- else it takes as much promotional credit as there is, up to the amount, and the rest from the
-- wallet.
pub resolve_payer_funding_split_lem :
    (amount promo wallet : ℕ)
    → 0 < amount
    → amount < 2 ^ 63
    → resolve_payer_funding_split (pos amount) (pos promo) (pos wallet) ≡ (
        if ltb (promo + wallet) amount
        then err (escrow insufficient_payer_funds)
        else ok (record {
          promo_part = pos (min amount promo);
          wallet_part = pos (amount - min amount promo);
        }))
unfolding resolve_payer_funding_split
resolve_payer_funding_split_lem amount promo wallet h r =
    let positive : leb_ℤ (pos amount) (pos 0) ≡ false = ground arith in
    let least : min amount promo ≤ amount = ground arith in
    let same : ltb_ℤ (pos wallet) (pos (amount - min amount promo)) ≡ ltb (promo + wallet) amount =
      ground arith in
    rw (positive, least_pos amount promo, sub_64_pos amount (min amount promo) least r, same) refl

-- Lines that pass one by one and whose exact sums agree are a valid journal.
pub balanced_lines_valid :
    (line : EntryLine) (lines : List EntryLine)
    → All IsTyped (line ∷ lines)
    → All IsOneSided (line ∷ lines)
    → total_debit (line ∷ lines) ≡ total_credit (line ∷ lines)
    → validate_lines (line ∷ lines) ≡ ok tt
balanced_lines_valid line lines typed sided e =
    (validate_lines_iff (line ∷ lines) typed).1 (omega arith, sided, ap (λ n. n % 2 ^ 64) e)

module _ (code : Text) (named : is_empty code ≡ false) (n : ℕ) (h : 0 < n) where
  pub debit_line-IsOneSided :
      IsOneSided (record { account_code = code; debit = pos n; credit = pos 0 })
  debit_line-IsOneSided = record {
    no_negative = (refl, refl);
    some_side = omega arith;
    one_side = inr refl;
    has_account = named;
  }

  pub credit_line-IsOneSided :
      IsOneSided (record { account_code = code; debit = pos 0; credit = pos n })
  credit_line-IsOneSided = record {
    no_negative = (refl, refl);
    some_side = omega arith;
    one_side = inl refl;
    has_account = named;
  }

module _ (code : Text) (n : ℕ) (r : n < 2 ^ 63) where
  pub debit_line-IsTyped : IsTyped (record { account_code = code; debit = pos n; credit = pos 0 })
  debit_line-IsTyped = record {
    debit_int64 = (r, omega arith);
    credit_int64 = (omega arith, omega arith);
  }

  pub credit_line-IsTyped : IsTyped (record { account_code = code; debit = pos 0; credit = pos n })
  credit_line-IsTyped = record {
    debit_int64 = (omega arith, omega arith);
    credit_int64 = (r, omega arith);
  }

-- The lines that BuildEscrowPayJournalLines makes of two non-negative parts, not both 0, with a
-- sum that is an int64, pass ValidateLines.
pub pay_lines_valid :
    (payer shipment : Text) (promo wallet : ℕ)
    → 0 < promo + wallet
    → promo + wallet < 2 ^ 63
    → validate_lines (
        build_escrow_pay_journal_lines payer shipment
          (record { promo_part = pos promo; wallet_part = pos wallet }))
      ≡ ok tt
unfolding build_escrow_pay_journal_lines user_wallet_account user_promo_credit_account
    shipment_escrow_account
pay_lines_valid payer shipment promo wallet h r =
    let credit =
      credit_line-IsOneSided (shipment_escrow_account shipment) refl (promo + wallet) h in
    let credit_typed = credit_line-IsTyped (shipment_escrow_account shipment) (promo + wallet) r in
    rw (add_64_pos promo wallet r) (elim (Bool-cases (ltb_ℤ (pos 0) (pos promo))) [
      | inl p ↦ elim (Bool-cases (ltb_ℤ (pos 0) (pos wallet))) [
        | inl q ↦
            rw (p, q)
              (balanced_lines_valid _ _
                (
                  debit_line-IsTyped _ promo (omega arith),
                  (debit_line-IsTyped _ wallet (omega arith), (credit_typed, tt)),
                )
                (
                  debit_line-IsOneSided _ refl promo (ground arith),
                  (debit_line-IsOneSided _ refl wallet (ground arith), (credit, tt)),
                )
                (omega arith))
        | inr q ↦
            rw (p, q)
              (balanced_lines_valid _ _
                (debit_line-IsTyped _ promo (omega arith), (credit_typed, tt))
                (debit_line-IsOneSided _ refl promo (ground arith), (credit, tt)) (ground arith))
      ]
      | inr p ↦
          let q : ltb_ℤ (pos 0) (pos wallet) ≡ true = ground arith in
          rw (p, q)
            (balanced_lines_valid _ _
              (debit_line-IsTyped _ wallet (omega arith), (credit_typed, tt))
              (debit_line-IsOneSided _ refl wallet (ground arith), (credit, tt)) (ground arith))
    ])

-- For a refund that is a non-negative int64, RefundAllocation gives back what is left of the
-- promotional credit first, up to the refund, and the rest to the wallet.
pub refund_allocation_lem :
    (refund promo : ℕ)
    → refund < 2 ^ 63
    → refund_allocation (pos refund) (pos promo)
      ≡ (pos (min refund promo), pos (refund - min refund promo))
unfolding refund_allocation
refund_allocation_lem refund promo r =
    elim (Bool-cases (leb_ℤ (pos refund) (pos 0) || leb_ℤ (pos promo) (pos 0))) [
      | inl none_left ↦ rw none_left (ground arith)
      | inr some_left ↦
          let least : min refund promo ≤ refund = ground arith in
          rw (some_left, least_promo, sub_64_pos refund (min refund promo) least r) refl
    ]
  where
    least_promo :
        (if ltb_ℤ (pos promo) (pos refund) then pos promo else pos refund) ≡ pos (min refund promo)
    least_promo = ground arith
