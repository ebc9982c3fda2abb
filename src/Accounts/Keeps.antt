-- ===== src/Accounts/Keeps.antt =====
-- Registering accounts and reading balances keep every property of the database that does not look
-- at the account tables.
use airbar_finance.Prelude.{
  Bool, Option, some, List, [], ◌∷◌, any, inl, inr, Bool-cases, Option-cases,
}
use airbar_finance.Prelude.Text.{Text, same}
use airbar_finance.Domain.Account.{Account}
use airbar_finance.Domain.Ledger.{EntryLine, Entry}
use airbar_finance.Ledger.Account.{AccountCode, parse_user_id_from_wallet_account}
use airbar_finance.Ledger.Repository.{select_sums, sum_by_account, sum_global}
use airbar_finance.Store.World.{Db, Env, M}
use airbar_finance.Store.Sql.{after}
use airbar_finance.Store.Keeps.{Keeps, Preserves, keeps_rules, Keeps-bind, Keeps-pure}
use airbar_finance.Accounts.{Upserted, kept, inserted, code_taken, upsert, ensure_each}
use airbar_finance.Accounts.Wallet.{
  stored_wallet, upsert_wallet, ensure_account, ensure_for_lines, get_balance,
}
use airbar_finance.Accounts.Credit.{
  stored_credit, upsert_credit, ensure_credit_account, get_promo_balance,
}

-- A statement that only reads keeps everything.
pub select_sums-Preserves : {P : Db → Type 0} (p : Entry → Bool) → Preserves P (select_sums p)
unfolding select_sums
select_sums-Preserves p = record { at = λ d h. h }

module _ {P : Db → Type 0} where
  pub sum_by_account-Keeps : (env : Env) (code : Text) → Keeps P (sum_by_account env code)
  unfolding sum_by_account
  sum_by_account-Keeps env code = search (keeps_rules, select_sums-Preserves)

  pub sum_global-Keeps : (env : Env) → Keeps P (sum_global env)
  unfolding sum_global
  sum_global-Keeps env = search (keeps_rules, select_sums-Preserves)

  pub get_balance-Keeps : (env : Env) (u : Text) → Keeps P (get_balance env u)
  unfolding get_balance
  get_balance-Keeps env u = search (keeps_rules, sum_by_account-Keeps)

  pub get_promo_balance-Keeps : (env : Env) (u : Text) → Keeps P (get_promo_balance env u)
  unfolding get_promo_balance
  get_promo_balance-Keeps env u = search (keeps_rules, sum_by_account-Keeps)

  ensure_each-Keeps :
      (parse : AccountCode → Option Text) (ensure : Text → M Account) (seen : List Text)
      (lines : List EntryLine)
      → ((u : Text) → Keeps P (ensure u))
      → Keeps P (ensure_each parse ensure seen lines)
  unfolding ensure_each
  ensure_each-Keeps parse ensure seen [] k = Keeps-pure tt
  ensure_each-Keeps parse ensure seen (line ∷ lines) k =
      elim (Option-cases (parse line.account_code)) [
        | inl e ↦ rw (e, ensure_each) (ensure_each-Keeps parse ensure seen lines k)
        | inr (u, e) ↦ elim (Bool-cases (any (same u) seen)) [
          | inl old ↦ rw (e, ensure_each) (rw old (ensure_each-Keeps parse ensure seen lines k))
          | inr new ↦
              rw (e, ensure_each)
                (rw new (
                  Keeps-bind (ensure u) _ (k u)
                    (λ _. ensure_each-Keeps parse ensure (u ∷ seen) lines k)))
        ]
      ]

module _ {P : Db → Type 0}
    (ignores : (rows : List Account) (d : Db) → P d → P (record d { wallet_accounts = rows })) where
  stored_wallet-holds :
      (o : Upserted) (account : Account) (d : Db) → P d → P (after (stored_wallet o account d) d)
  stored_wallet-holds (kept row) account d h = h
  stored_wallet-holds inserted account d h = ignores _ d h
  stored_wallet-holds code_taken account d h = h

  pub upsert_wallet-Preserves : (account : Account) → Preserves P (upsert_wallet account)
  unfolding upsert_wallet
  upsert_wallet-Preserves account = record {
    at = λ d h. stored_wallet-holds (upsert account d.wallet_accounts) account d h;
  }

  pub ensure_account-Keeps : (env : Env) (u : Text) → Keeps P (ensure_account env u)
  unfolding ensure_account
  ensure_account-Keeps env u = search (keeps_rules, upsert_wallet-Preserves) depth 8

  pub ensure_for_lines-Keeps :
      (env : Env) (lines : List EntryLine)
      → Keeps P (ensure_for_lines (some (ensure_account env)) lines)
  unfolding ensure_for_lines
  ensure_for_lines-Keeps env lines =
      ensure_each-Keeps parse_user_id_from_wallet_account (ensure_account env) [] lines
        (ensure_account-Keeps env)

module _ {P : Db → Type 0}
    (ignores : (rows : List Account) (d : Db) → P d → P (record d { credit_accounts = rows })) where
  stored_credit-holds :
      (o : Upserted) (account : Account) (d : Db) → P d → P (after (stored_credit o account d) d)
  stored_credit-holds (kept row) account d h = h
  stored_credit-holds inserted account d h = ignores _ d h
  stored_credit-holds code_taken account d h = h

  pub upsert_credit-Preserves : (account : Account) → Preserves P (upsert_credit account)
  unfolding upsert_credit
  upsert_credit-Preserves account = record {
    at = λ d h. stored_credit-holds (upsert account d.credit_accounts) account d h;
  }

  pub ensure_credit_account-Keeps : (env : Env) (u : Text) → Keeps P (ensure_credit_account env u)
  unfolding ensure_credit_account
  ensure_credit_account-Keeps env u = search (keeps_rules, upsert_credit-Preserves) depth 8
