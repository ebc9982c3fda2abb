-- ===== src/Accounts/Wallet.antt =====
-- repository/wallet.go, usecase/wallet/ensure_account.go, ensure_for_lines.go and get_balance.go
use airbar_finance.Prelude.{Option, none, some, List, [], ◌∷◌, ◌++◌}
use airbar_finance.Prelude.Int.{ℤ, sub_64}
use airbar_finance.Prelude.Text.{Text}
use airbar_finance.Domain.Errors.{unique_violation}
use airbar_finance.Domain.Account.{Account}
use airbar_finance.Domain.Ledger.{EntryLine}
use airbar_finance.Ledger.Account.{
  currency_irt, user_wallet_account, parse_user_id_from_wallet_account,
}
use airbar_finance.Ledger.Repository.{sum_by_account}
use airbar_finance.Store.World.{Db, Env, M, ◌>>=◌, pure}
use airbar_finance.Store.Sql.{Outcome, Statement, done, violates, on_pool, new_uuid, now_utc}
use airbar_finance.Accounts.{Upserted, kept, inserted, code_taken, upsert, ensure_each}

abbrev pub stored_wallet : Upserted → Account → Db → Outcome Account
stored_wallet (kept row) account d = done row d
stored_wallet inserted account d =
    done account (record d { wallet_accounts = d.wallet_accounts ++ (account ∷ []) })
stored_wallet code_taken account d = violates unique_violation

unfoldable pub upsert_wallet : Account → Statement Account
upsert_wallet account d = stored_wallet (upsert account d.wallet_accounts) account d

-- `EnsureAccount`, on the pool.
unfoldable pub ensure_account : Env → Text → M Account
ensure_account env user_id = do
  id ← new_uuid env
  created_at ← now_utc env
  on_pool env (
      upsert_wallet (record {
        id = id;
        user_id = user_id;
        currency = currency_irt;
        account_code = user_wallet_account user_id;
        created_at = created_at;
      }))

-- `EnsureForLines`; there may be no ensurer.
unfoldable pub ensure_for_lines : Option (Text → M Account) → List EntryLine → M (Unit {0})
ensure_for_lines none lines = pure tt
ensure_for_lines (some ensure) lines = ensure_each parse_user_id_from_wallet_account ensure [] lines

-- `GetBalance.Execute`: credit - debit.
unfoldable pub get_balance : Env → Text → M ℤ
get_balance env user_id = do
  (debit, credit) ← sum_by_account env (user_wallet_account user_id)
  pure (sub_64 credit debit)
