-- ===== src/Escrow/Funding/Negative.antt =====
-- What a negative promotional balance, as the reversal of a spent grant leaves it, does to a payment.
use airbar_finance.Prelude.{ℕ, suc, ◌+◌, ◌^◌, ◌≤◌, ◌<◌, ◌≡◌, ◌≢◌, refl, [], ◌∷◌, true, false, arith}
use airbar_finance.Prelude.Int.{pos, negsuc, ltb_ℤ, leb_ℤ, ◌+ℤ◌, ◌-ℤ◌, add_64, sub_64, wrap_64}
use airbar_finance.Prelude.Text.{Text, is_empty}
use airbar_finance.Domain.Errors.{ledger, unbalanced_journal}
use airbar_finance.Store.World.{ok, err}
use airbar_finance.Ledger.Account.{user_wallet_account, shipment_escrow_account}
use airbar_finance.Ledger.Journal.{validate_lines}
use airbar_finance.Escrow.Funding.{
  PayerFundingSplit, resolve_payer_funding_split, build_escrow_pay_journal_lines,
}

sub_64_negsuc : (m k : ℕ) → m + suc k < 2 ^ 63 → sub_64 (pos m) (negsuc k) ≡ pos (m + suc k)
unfolding sub_64 wrap_64 ◌-ℤ◌
sub_64_negsuc m k h = ground arith

add_64_negsuc : (m k : ℕ) → m + suc k < 2 ^ 63 → add_64 (negsuc k) (pos (m + suc k)) ≡ pos m
unfolding add_64 wrap_64 ◌+ℤ◌
add_64_negsuc m k h = ground arith

two_lines_unbalanced :
    (payer shipment : Text) (m n : ℕ)
    → is_empty payer ≡ false
    → is_empty shipment ≡ false
    → 0 < m
    → m < 2 ^ 63
    → 0 < n
    → n < 2 ^ 63
    → n ≢ m
    → validate_lines (
        record { account_code = payer; debit = pos m; credit = pos 0 }
        ∷ record { account_code = shipment; debit = pos 0; credit = pos n }
        ∷ [])
      ≡ err (ledger unbalanced_journal)
unfolding validate_lines add_64 wrap_64 ◌+ℤ◌
two_lines_unbalanced payer shipment m n a b h r k s e = ground arith

abbrev overdrawn : ℕ → ℕ → PayerFundingSplit
overdrawn amount k = record { promo_part = negsuc k; wallet_part = pos (amount + suc k) }

resolve_overdrawn :
    (amount k wallet : ℕ)
    → 0 < amount
    → amount + suc k < 2 ^ 63
    → amount + suc k ≤ wallet
    → resolve_payer_funding_split (pos amount) (negsuc k) (pos wallet) ≡ ok (overdrawn amount k)
unfolding resolve_payer_funding_split
resolve_overdrawn amount k wallet h r s =
    let positive : leb_ℤ (pos amount) (pos 0) ≡ false = ground arith in
    let less : ltb_ℤ (pos amount) (negsuc k) ≡ false = ground arith in
    let enough : ltb_ℤ (pos wallet) (pos (amount + suc k)) ≡ false = ground arith in
    rw (positive, less, sub_64_negsuc amount k r, enough) refl

-- A payer whose promotional balance is -(k + 1) and whose wallet holds at least the amount and k +
-- 1 more is let through by ResolvePayerFundingSplit, but ValidateLines refuses the lines of the
-- payment as unbalanced.
pub negative_promo_refused :
    (payer shipment : Text) (amount k wallet : ℕ)
    → 0 < amount
    → amount + suc k < 2 ^ 63
    → amount + suc k ≤ wallet
    → (split : PayerFundingSplit) × ((resolve_payer_funding_split
            (pos amount)
            (negsuc k)
            (pos wallet)
          ≡ ok split)
        × (validate_lines (build_escrow_pay_journal_lines payer shipment split)
            ≡ err (ledger unbalanced_journal)))
unfolding build_escrow_pay_journal_lines user_wallet_account shipment_escrow_account
negative_promo_refused payer shipment amount k wallet h r s =
    (overdrawn amount k, (resolve_overdrawn amount k wallet h r s, refused))
  where
    first : ltb_ℤ (pos 0) (pos (amount + suc k)) ≡ true
    first = ground arith

    no_promo : ltb_ℤ (pos 0) (negsuc k) ≡ false
    no_promo = ground arith

    refused :
        validate_lines (build_escrow_pay_journal_lines payer shipment (overdrawn amount k))
        ≡ err (ledger unbalanced_journal)
    refused =
        rw (no_promo, first, add_64_negsuc amount k r)
          (two_lines_unbalanced (user_wallet_account payer) (shipment_escrow_account shipment)
            (amount + suc k) amount refl refl (omega arith) r h (omega arith) (omega arith))
