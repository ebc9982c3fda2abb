-- ===== src/Treasury.antt =====
-- internal/usecase/treasury/get_treasury_summary.go
use airbar_finance.Prelude.{not, List, [], ◌∷◌, if◌then◌else◌}
use airbar_finance.Prelude.Int.{ℤ, sub_64}
use airbar_finance.Prelude.Text.{Text, text, same, is_empty}
use airbar_finance.Domain.Errors.{treasury_unsupported_currency}
use airbar_finance.Store.World.{Env, M, ◌>>=◌, ◌>>◌, pure, fail_if}
use airbar_finance.Ledger.Account.{
  AccountCode, ir_psp_clearing, ir_bank_main, ir_payout_clearing, airbar_fee_revenue,
  airbar_promo_expense,
}
use airbar_finance.Ledger.Repository.{sum_by_account}
use airbar_finance.Ledger.Like.{
  sum_by_account_like, wallet_account_like_pattern, escrow_account_like_pattern,
  promo_credit_account_like_pattern,
}

abbrev pub default_currency : Text
default_currency = text "IRT"

-- The map of balances, in the order of its assignments.
pub record Summary : Type 0 where
  pub currency : Text
  pub accounts : List (Text × ℤ)

-- `assetBalance` and `expenseBalance`, which are the same: debit - credit.
unfoldable pub asset_balance : Env → AccountCode → M ℤ
asset_balance env code = do (debit, credit) ← sum_by_account env code; pure (sub_64 debit credit)

unfoldable pub revenue_balance : Env → AccountCode → M ℤ
revenue_balance env code = do (debit, credit) ← sum_by_account env code; pure (sub_64 credit debit)

unfoldable pub liability_balance : Env → Text → M ℤ
liability_balance env pattern = do
  (debit, credit) ← sum_by_account_like env pattern
  pure (sub_64 credit debit)

unfoldable pub get_treasury_summary : Env → Text → M Summary
get_treasury_summary env requested = do
  let currency = if is_empty requested then default_currency else requested
  fail_if (not (same currency default_currency)) treasury_unsupported_currency
  psp ← asset_balance env ir_psp_clearing
  bank ← asset_balance env ir_bank_main
  payout ← asset_balance env ir_payout_clearing
  fee ← revenue_balance env airbar_fee_revenue
  promo_expense ← asset_balance env airbar_promo_expense
  wallet_net ← liability_balance env wallet_account_like_pattern
  escrow_net ← liability_balance env escrow_account_like_pattern
  promo_net ← liability_balance env promo_credit_account_like_pattern
  pure (record {
    currency = currency;
    accounts =
        (ir_psp_clearing, psp)
        ∷ (ir_bank_main, bank)
        ∷ (ir_payout_clearing, payout)
        ∷ (airbar_fee_revenue, fee)
        ∷ (airbar_promo_expense, promo_expense)
        ∷ (text "AGGREGATE_WALLET_LIABILITY", wallet_net)
        ∷ (text "AGGREGATE_ESCROW_LIABILITY", escrow_net)
        ∷ (text "AGGREGATE_PROMO_CREDIT_LIABILITY", promo_net)
        ∷ [];
  })
