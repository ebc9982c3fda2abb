-- ===== src/Accounts/Credit.antt =====
-- repository/credit.go (EnsureAccount), usecase/credit/ensure_account.go, ensure_for_lines.go and
-- get_balance.go
use airbar_finance.Prelude.{Option, none, some, List, [], ◌∷◌, ◌++◌}
use airbar_finance.Prelude.Int.{ℤ, sub_64}
use airbar_finance.Prelude.Text.{Text}
use airbar_finance.Domain.Errors.{unique_violation}
use airbar_finance.Domain.Account.{Account}
use airbar_finance.Domain.Ledger.{EntryLine}
use airbar_finance.Ledger.Account.{
  currency_irt, user_promo_credit_account, parse_user_id_from_promo_credit_account,
}
use airbar_finance.Ledger.Repository.{sum_by_account}
use airbar_finance.Store.World.{Db, Env, M, ◌>>=◌, pure}
use airbar_finance.Store.Sql.{Outcome, Statement, done, violates, on_pool, new_uuid, now_utc}
use airbar_finance.Accounts.{Upserted, kept, inserted, code_taken, upsert, ensure_each}

abbrev pub stored_credit : Upserted → Account → Db → Outcome Account
stored_credit (kept row) account d = done row d
stored_credit inserted account d =
    done account (record d { credit_accounts = d.credit_accounts ++ (account ∷ []) })
stored_credit code_taken account d = violates unique_violation

unfoldable pub upsert_credit : Account → Statement Account
upsert_credit account d = stored_credit (upsert account d.credit_accounts) account d

-- `EnsureAccount`, on the pool.
unfoldable pub ensure_credit_account : Env → Text → M Account
ensure_credit_account env user_id = do
  id ← new_uuid env
  created_at ← now_utc env
  on_pool env (
      upsert_credit (record {
        id = id;
        user_id = user_id;
        currency = currency_irt;
        account_code = user_promo_credit_account user_id;
        created_at = created_at;
      }))

unfoldable pub ensure_for_credit_lines : Option (Text → M Account) → List EntryLine → M (Unit {0})
ensure_for_credit_lines none lines = pure tt
ensure_for_credit_lines (some ensure) lines =
    ensure_each parse_user_id_from_promo_credit_account ensure [] lines

-- `GetBalance.Execute`: credit - debit.
unfoldable pub get_promo_balance : Env → Text → M ℤ
get_promo_balance env user_id = do
  (debit, credit) ← sum_by_account env (user_promo_credit_account user_id)
  pure (sub_64 credit debit)
