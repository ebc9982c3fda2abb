-- ===== src/Accounts/Lookup.antt =====
-- A registered wallet account against its lookup: EnsureAccount and GetByUserID of
-- internal/infrastructure/postgres/repository/wallet.go.
use airbar_finance.Prelude.{
  ℕ, Bool, true, ◌&&◌, ◌≡◌, refl, sym, ap, ◌∙◌, Option, none, some, List, [], ◌∷◌, ◌++◌, ◌⊎◌, find,
  any, inl, inr, Bool-cases,
}
use airbar_finance.Prelude.Text.{Text, same, same_refl}
use airbar_finance.Domain.Account.{Account}
use airbar_finance.Ledger.Account.{currency_irt, user_wallet_account}
use airbar_finance.Store.World.{Db, Env, World, ok, ◌>>=◌}
use airbar_finance.Store.Sql.{Outcome, done, violates, commit_pool, on_pool, new_uuid, now_utc}
use airbar_finance.Accounts.{upsert, kept, inserted, code_taken}
use airbar_finance.Accounts.Wallet.{upsert_wallet, ensure_account}
use airbar_finance.Accounts.Queries.{select_by_user_id}

find-last :
    {A : Type 0} (p : A → Bool) (xs : List A) (x : A)
    → find p xs ≡ none
    → p x ≡ true
    → find p (xs ++ (x ∷ [])) ≡ some x
find-last p [] x n h = rw h refl
find-last p (y ∷ ys) x n h = elim (Bool-cases (p y)) [
  | inl e ↦ cc (rw e at n)
  | inr e ↦ rw e (find-last p ys x (rw e at n) h)
]

abbrev owned_by : Text → Account → Bool
owned_by user_id r = same r.user_id user_id && same r.currency currency_irt

abbrev wallet_account : (id user_id : Text) → ℕ → Account
wallet_account id user_id created_at = record {
  id = id;
  user_id = user_id;
  currency = currency_irt;
  account_code = user_wallet_account user_id;
  created_at = created_at;
}

stored-found :
    (user_id : Text) (a b : Account) (d e : Db)
    → done a d ≡ done b e
    → find (owned_by user_id) d.wallet_accounts ≡ some a
    → find (owned_by user_id) e.wallet_accounts ≡ some b
stored-found user_id a b d e h f =
    let row : a ≡ b = cc h in
    let table : d ≡ e = cc h in
    ap (λ x. find (owned_by user_id) x.wallet_accounts) (sym table) ∙ (f ∙ ap some row)

module _ (id user_id : Text) (t : ℕ) where
  -- What the insertion gives, by the row that the lookup finds before it.
  upsert_cases :
      (rows : List Account)
      → ((a : Account) × ((find (owned_by user_id) rows ≡ some a)
            × (upsert (wallet_account id user_id t) rows ≡ kept a)))
        ⊎ (upsert (wallet_account id user_id t) rows ≡ code_taken)
        ⊎ ((find (owned_by user_id) rows ≡ none)
            × (upsert (wallet_account id user_id t) rows ≡ inserted))
  unfolding upsert
  upsert_cases rows = go (find (owned_by user_id) rows) refl
    where
      go :
          (o : Option Account)
          → find (owned_by user_id) rows ≡ o
          → ((a : Account) × ((find (owned_by user_id) rows ≡ some a)
                × (upsert (wallet_account id user_id t) rows ≡ kept a)))
            ⊎ (upsert (wallet_account id user_id t) rows ≡ code_taken)
            ⊎ ((find (owned_by user_id) rows ≡ none)
                × (upsert (wallet_account id user_id t) rows ≡ inserted))
      go (some a) f = inl (a, (f, rw (upsert, f) refl))
      go none n =
          elim (Bool-cases (any (λ r. same r.account_code (user_wallet_account user_id)) rows)) [
            | inl y ↦ inr (inl (rw (upsert, n, y) refl))
            | inr y ↦ inr (inr (n, rw (upsert, n, y) refl))
          ]

  upserted-found :
      (b : Account) (d e : Db)
      → upsert_wallet (wallet_account id user_id t) d ≡ done b e
      → find (owned_by user_id) e.wallet_accounts ≡ some b
  unfolding upsert_wallet
  upserted-found b d e h = elim (upsert_cases d.wallet_accounts) [
    | inl (a, (f, u)) ↦ stored-found user_id a b d e (rw u at h) f
    | inr (inl u) ↦ cc (rw u at h)
    | inr (inr (n, u)) ↦ stored-found user_id _ b _ e (rw u at h) (
        find-last (owned_by user_id) d.wallet_accounts (wallet_account id user_id t) n
          (rw (same_refl user_id) (same_refl currency_irt)))
  ]

pooled-found :
    (env : Env) (id user_id : Text) (t : ℕ) (b : Account) (w : World)
    → (on_pool env (upsert_wallet (wallet_account id user_id t)) w).0 ≡ ok b
    → find
        (owned_by user_id)
        (on_pool env (upsert_wallet (wallet_account id user_id t)) w).1.committed.wallet_accounts
      ≡ some b
unfolding on_pool
pooled-found env id user_id t b w h = elim (Bool-cases (env.fails w.tick)) [
  | inl f ↦ cc (rw f at h)
  | inr f ↦ rw f (go (upsert_wallet (wallet_account id user_id t) w.committed) refl (rw f at h))
]
  where
    go :
        (o : Outcome Account)
        → upsert_wallet (wallet_account id user_id t) w.committed ≡ o
        → (commit_pool o (upsert_wallet (wallet_account id user_id t)) w).0 ≡ ok b
        → find
            (owned_by user_id)
            (commit_pool o
              (upsert_wallet (wallet_account id user_id t))
              w).1.committed.wallet_accounts
          ≡ some b
    go (done a e) q k =
        let same_row : a ≡ b = cc k in
        upserted-found id user_id t b w.committed e (q ∙ ap (λ x. done x e) same_row)
    go (violates x) q k = cc k

-- When registering a user's wallet account returns an account, the lookup of that user finds that
-- same account in the tables that are left.
pub ensured_account_found :
    (env : Env) (user_id : Text) (w : World) (a : Account)
    → (ensure_account env user_id w).0 ≡ ok a
    → select_by_user_id user_id (ensure_account env user_id w).1.committed
      ≡ done (some a) (ensure_account env user_id w).1.committed
unfolding ensure_account select_by_user_id new_uuid now_utc ◌>>=◌
ensured_account_found env user_id w a h =
    ap (λ o. done o (ensure_account env user_id w).1.committed)
      (pooled-found env (env.uuid w.tick) user_id (env.clock w.tick) a w h)
