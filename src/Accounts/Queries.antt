-- ===== src/Accounts/Queries.antt =====
-- internal/usecase/wallet/get_wallet.go, list_transactions.go and format.go, and GetByUserID of the
-- repository of wallets
use airbar_finance.Prelude.{◌&&◌, true, false, Option, List, find}
use airbar_finance.Prelude.Int.{ℤ}
use airbar_finance.Prelude.Text.{Text, same, is_empty}
use airbar_finance.Domain.Account.{Account}
use airbar_finance.Domain.Errors.{wallet, WalletError, unsupported_currency}
use airbar_finance.Store.World.{Env, M, Result, ok, err, ◌>>=◌, ◌>>◌, pure, lift, fail_if}
use airbar_finance.Store.Sql.{Statement, done, on_pool}
use airbar_finance.Ledger.Account.{currency_irt, user_wallet_account}
use airbar_finance.Ledger.Like.{AccountEntry, list_by_account}
use airbar_finance.Accounts.Wallet.{get_balance}

unfoldable pub normalize_currency : Text → Result Text
normalize_currency currency = elim (is_empty currency) [
  | true ↦ ok currency_irt
  | false ↦ elim (same currency currency_irt) [
    | true ↦ ok currency
    | false ↦ err (wallet unsupported_currency)
  ]
]

pub record Wallet : Type 0 where
  pub user_id : Text
  pub currency : Text
  pub balance : ℤ
  pub account_code : Text

unfoldable pub get_wallet : Env → Text → Text → M Wallet
get_wallet env user_id currency = do
  fail_if (is_empty user_id) (wallet WalletError.invalid_input)
  normalized ← lift (normalize_currency currency)
  balance ← get_balance env user_id
  pure (record {
    user_id = user_id;
    currency = normalized;
    balance = balance;
    account_code = user_wallet_account user_id;
  })

-- A transaction has the fields of an entry of the account.
unfoldable pub list_wallet_transactions : Env → Text → Text → M (List AccountEntry)
list_wallet_transactions env user_id currency = do
  fail_if (is_empty user_id) (wallet WalletError.invalid_input)
  lift (normalize_currency currency)
  list_by_account env (user_wallet_account user_id)

unfoldable pub select_by_user_id : Text → Statement (Option Account)
select_by_user_id user_id d =
    done (find (λ a. same a.user_id user_id && same a.currency currency_irt) d.wallet_accounts) d

unfoldable pub get_by_user_id : Env → Text → M (Option Account)
get_by_user_id env user_id = on_pool env (select_by_user_id user_id)
