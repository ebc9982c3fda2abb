-- ===== src/Ledger/Like/Matches.antt =====
-- What the patterns of the aggregate sums match.
use airbar_finance.Prelude.{◌≡◌, refl, Bool, true, [], ◌∷◌, ◌++◌, arith}
use airbar_finance.Prelude.Text.{Text, text}
use airbar_finance.Ledger.Account.{
  user_wallet_account, user_promo_credit_account, shipment_escrow_account, wallet_account_suffix,
  promo_credit_account_suffix,
}
use airbar_finance.Ledger.Like.{
  some_end, like, wallet_account_like_pattern, escrow_account_like_pattern,
  promo_credit_account_like_pattern,
}

some_end-append : (f : Text → Bool) (u s : Text) → f s ≡ true → some_end f (u ++ s) ≡ true
unfolding some_end
some_end-append f [] [] h = h
some_end-append f [] (c ∷ s) h = rw h refl
some_end-append f (c ∷ u) s h = rw (some_end-append f u s h) (ground arith)

-- The three aggregate patterns of the treasury match the code of every user's wallet, of every
-- user's promotional credit and of every shipment's escrow, whatever the id is.
pub patterns_match :
    (id : Text)
    → (like wallet_account_like_pattern (user_wallet_account id) ≡ true)
      × ((like promo_credit_account_like_pattern (user_promo_credit_account id) ≡ true)
          × (like escrow_account_like_pattern (shipment_escrow_account id) ≡ true))
unfolding like wallet_account_like_pattern user_wallet_account promo_credit_account_like_pattern
    user_promo_credit_account escrow_account_like_pattern shipment_escrow_account
patterns_match id = (
  some_end-append (like wallet_account_suffix) id wallet_account_suffix refl,
  (
    some_end-append (like promo_credit_account_suffix) id promo_credit_account_suffix refl,
    some_end-append (like (text ":IRT:ESCROW")) id (text ":IRT:ESCROW") refl,
  ),
)
