-- ===== src/Accounts/Listing.antt =====
-- The balance of a wallet against its listing: internal/usecase/wallet/get_wallet.go and
-- list_transactions.go.
use airbar_finance.Prelude.{Bool, true, false, ◌≡◌, ap, List, All, inl, inr, Bool-cases, ◌&&◌}
use airbar_finance.Prelude.Int.{ℤ, sub_64, in_int64}
use airbar_finance.Prelude.Text.{Text, same, is_empty}
use airbar_finance.Domain.Errors.{wallet, WalletError}
use airbar_finance.Domain.Ledger.{Entry}
use airbar_finance.Store.World.{
  Env, World, M, Result, ok, err, ◌>>=◌, ◌>>◌, continue, pure, lift, fail_if,
}
use airbar_finance.Store.Sql.{on_pool}
use airbar_finance.Ledger.Account.{user_wallet_account}
use airbar_finance.Ledger.Repository.{select_sums, scan_sums, sum_by_account, sum_debit, sum_credit}
use airbar_finance.Ledger.Like.{
  AccountEntry, join_entries, sorted, entries_of, select_by_account, list_by_account,
}
use airbar_finance.Ledger.Like.History.{HasJournal, debits, credits, listing_sums}
use airbar_finance.Accounts.Wallet.{get_balance}
use airbar_finance.Accounts.Queries.{
  Wallet, normalize_currency, get_wallet, list_wallet_transactions,
}

module _ (env : Env) (user_id : Text) (w : World) where
  abbrev own : Entry → Bool
  own e = same e.account_code (user_wallet_account user_id)

  abbrev shown : Text → ℤ → Wallet
  shown normalized balance = record {
    user_id = user_id;
    currency = normalized;
    balance = balance;
    account_code = user_wallet_account user_id;
  }

  shown_ok :
      (n : Text) (r : Result ℤ) (v : World) (x : Wallet)
      → (continue r (λ b. pure (shown n b)) v).0 ≡ ok x
      → r ≡ ok x.balance
  unfolding pure
  shown_ok n (ok b) v x h =
      let same_wallet : shown n b ≡ x = cc h in ap (λ y. ok y.balance) same_wallet
  shown_ok n (err e) v x h = cc h

  wallet_of : Bool → Result Text → M Wallet
  wallet_of t r = do
    fail_if t (wallet WalletError.invalid_input)
    normalized ← lift r
    balance ← get_balance env user_id
    pure (shown normalized balance)

  wallet_of_ok :
      (t : Bool) (r : Result Text) (x : Wallet)
      → (wallet_of t r w).0 ≡ ok x
      → (get_balance env user_id w).0 ≡ ok x.balance
  unfolding wallet_of ◌>>=◌
  wallet_of_ok true r x h = cc h
  wallet_of_ok false (err e) x h = cc h
  wallet_of_ok false (ok n) x h =
      shown_ok n (get_balance env user_id w).0 (get_balance env user_id w).1 x h

  listed : Bool → Result Text → M (List AccountEntry)
  listed t r = do
    fail_if t (wallet WalletError.invalid_input)
    lift r
    list_by_account env (user_wallet_account user_id)

  listed_ok :
      (t : Bool) (r : Result Text) (items : List AccountEntry)
      → (listed t r w).0 ≡ ok items
      → (list_by_account env (user_wallet_account user_id) w).0 ≡ ok items
  unfolding listed ◌>>=◌
  listed_ok true r items h = cc h
  listed_ok false (err e) items h = cc h
  listed_ok false (ok n) items h = h

  list_by_account_ok :
      (items : List AccountEntry)
      → (list_by_account env (user_wallet_account user_id) w).0 ≡ ok items
      → items
        ≡ entries_of (
            sorted
              (join_entries (user_wallet_account user_id) w.committed.journals w.committed.entries))
  unfolding list_by_account on_pool select_by_account
  list_by_account_ok items h = elim (Bool-cases (env.fails w.tick)) [
    | inl f ↦ cc (rw f at h)
    | inr f ↦ cc (rw f at h)
  ]

  get_balance_ok :
      (b : ℤ)
      → (get_balance env user_id w).0 ≡ ok b
      → b ≡ sub_64 (sum_credit own w.committed.entries) (sum_debit own w.committed.entries)
  unfolding get_balance sum_by_account on_pool select_sums ◌>>=◌ scan_sums
  get_balance_ok b h = elim (Bool-cases (env.fails w.tick)) [
    | inl f ↦ cc (rw f at h)
    | inr f ↦
        elim (Bool-cases (
          in_int64 (sum_debit own w.committed.entries)
          && in_int64 (sum_credit own w.committed.entries))) [
            | inl g ↦ cc (rw (f, g) at h)
            | inr g ↦ cc (rw (f, g) at h)
          ]
  ]

-- When a wallet and its listing are read from the same tables, each without a failure, and each
-- entry's journal is in its table, the balance of the wallet is the credits of the listing less
-- its debits, as a signed 64-bit difference.
pub wallet_is_listing :
    (env : Env) (user_id currency : Text) (w : World) (x : Wallet) (items : List AccountEntry)
    → All (HasJournal w.committed.journals) w.committed.entries
    → (get_wallet env user_id currency w).0 ≡ ok x
    → (list_wallet_transactions env user_id currency w).0 ≡ ok items
    → x.balance ≡ sub_64 (credits items) (debits items)
unfolding get_wallet list_wallet_transactions wallet_of listed
wallet_is_listing env user_id currency w x items journals h k =
    let r = normalize_currency currency in
    let balance =
      get_balance_ok env user_id w x.balance
        (wallet_of_ok env user_id w (is_empty user_id) r x h) in
    let listing =
      list_by_account_ok env user_id w items
        (listed_ok env user_id w (is_empty user_id) r items k) in
    let (d, c) =
      listing_sums (user_wallet_account user_id) w.committed.journals w.committed.entries
        journals in
    rw (listing, d, c) balance
