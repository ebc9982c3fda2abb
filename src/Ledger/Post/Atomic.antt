-- ===== src/Ledger/Post/Atomic.antt =====
-- Posting a journal within a transaction reaches the committed tables only to create accounts.
use airbar_finance.Prelude.{Option, some, List, [], ◌∷◌, any, inl, inr, Bool-cases, Option-cases}
use airbar_finance.Prelude.Text.{Text, same}
use airbar_finance.Domain.Account.{Account}
use airbar_finance.Domain.Ledger.{EntryLine}
use airbar_finance.Store.World.{Db, Env, M}
use airbar_finance.Store.Keeps.{Preserves}
use airbar_finance.Store.Atomic.{Shields, Shields-pure, Shields-bind, shields_rules}
use airbar_finance.Store.Reverts.{Stays, reverts_rules}
use airbar_finance.Ledger.Account.{AccountCode, parse_user_id_from_wallet_account}
use airbar_finance.Ledger.Repository.{sum_by_account}
use airbar_finance.Ledger.Repository.Atomic.{Unchanged, create_journal-Shields}
use airbar_finance.Ledger.Post.{PostJournalInput, post_journal}
use airbar_finance.Accounts.{ensure_each}
use airbar_finance.Accounts.Wallet.{upsert_wallet, ensure_account, ensure_for_lines, get_balance}
use airbar_finance.Accounts.Credit.{upsert_credit, ensure_credit_account, get_promo_balance}
use airbar_finance.Accounts.Keeps.{
  select_sums-Preserves, upsert_wallet-Preserves, upsert_credit-Preserves,
}

module _ {old : Db} where
  Unchanged-wallets :
      (rows : List Account) (d : Db)
      → Unchanged old d
      → Unchanged old (record d { wallet_accounts = rows })
  Unchanged-wallets rows d h = record {
    escrows = h.escrows;
    withdrawals = h.withdrawals;
    orders = h.orders;
    journals = h.journals;
    entries = h.entries;
  }

  Unchanged-credits :
      (rows : List Account) (d : Db)
      → Unchanged old d
      → Unchanged old (record d { credit_accounts = rows })
  Unchanged-credits rows d h = record {
    escrows = h.escrows;
    withdrawals = h.withdrawals;
    orders = h.orders;
    journals = h.journals;
    entries = h.entries;
  }

module _ {old : Db} (env : Env) where
  upsert_wallet-Unchanged : (account : Account) → Preserves (Unchanged old) (upsert_wallet account)
  upsert_wallet-Unchanged = upsert_wallet-Preserves Unchanged-wallets

  upsert_credit-Unchanged : (account : Account) → Preserves (Unchanged old) (upsert_credit account)
  upsert_credit-Unchanged = upsert_credit-Preserves Unchanged-credits

  ensure_account-Shields : (u : Text) → Shields (Unchanged old) (ensure_account env u)
  unfolding ensure_account
  ensure_account-Shields u = search (shields_rules, upsert_wallet-Unchanged) depth 8

  pub ensure_credit_account-Shields :
      (u : Text) → Shields (Unchanged old) (ensure_credit_account env u)
  unfolding ensure_credit_account
  ensure_credit_account-Shields u = search (shields_rules, upsert_credit-Unchanged) depth 8

  pub sum_by_account-Shields : (code : Text) → Shields (Unchanged old) (sum_by_account env code)
  unfolding sum_by_account
  sum_by_account-Shields code = search (shields_rules, select_sums-Preserves)

  pub get_balance-Shields : (u : Text) → Shields (Unchanged old) (get_balance env u)
  unfolding get_balance
  get_balance-Shields u = search (shields_rules, sum_by_account-Shields)

  pub get_promo_balance-Shields : (u : Text) → Shields (Unchanged old) (get_promo_balance env u)
  unfolding get_promo_balance
  get_promo_balance-Shields u = search (shields_rules, sum_by_account-Shields)

  sum_by_account-Stays : (code : Text) → Stays (Unchanged old) (sum_by_account env code)
  unfolding sum_by_account
  sum_by_account-Stays code = search (reverts_rules, select_sums-Preserves)

  pub get_balance-Stays : (u : Text) → Stays (Unchanged old) (get_balance env u)
  unfolding get_balance
  get_balance-Stays u = search (reverts_rules, sum_by_account-Stays)

  ensure_each-Shields :
      (parse : AccountCode → Option Text) (ensure : Text → M Account) (seen : List Text)
      (lines : List EntryLine)
      → ((u : Text) → Shields (Unchanged old) (ensure u))
      → Shields (Unchanged old) (ensure_each parse ensure seen lines)
  unfolding ensure_each
  ensure_each-Shields parse ensure seen [] k = Shields-pure tt
  ensure_each-Shields parse ensure seen (line ∷ lines) k =
      elim (Option-cases (parse line.account_code)) [
        | inl e ↦ rw (e, ensure_each) (ensure_each-Shields parse ensure seen lines k)
        | inr (u, e) ↦ elim (Bool-cases (any (same u) seen)) [
          | inl known ↦
              rw (e, ensure_each) (rw known (ensure_each-Shields parse ensure seen lines k))
          | inr new ↦
              rw (e, ensure_each)
                (rw new (
                  Shields-bind (ensure u) _ (k u)
                    (λ _. ensure_each-Shields parse ensure (u ∷ seen) lines k)))
        ]
      ]

  ensure_for_lines-Shields :
      (lines : List EntryLine)
      → Shields (Unchanged old) (ensure_for_lines (some (ensure_account env)) lines)
  unfolding ensure_for_lines
  ensure_for_lines-Shields lines =
      ensure_each-Shields parse_user_id_from_wallet_account (ensure_account env) [] lines
        ensure_account-Shields

  pub post_journal-Shields :
      (input : PostJournalInput) → Shields (Unchanged old) (post_journal env input)
  unfolding post_journal
  post_journal-Shields input =
      search (shields_rules, ensure_for_lines-Shields, create_journal-Shields) depth 12
