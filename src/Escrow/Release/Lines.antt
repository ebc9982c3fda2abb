-- ===== src/Escrow/Release/Lines.antt =====
-- Which releases ValidateLines accepts.
use airbar_finance.Prelude.{
  ℕ, ◌-◌, ◌^◌, ◌≤◌, ◌<◌, ◌≡◌, ◌↔◌, ◌⊎◌, refl, false, [], ◌∷◌, ◌++◌, arith, inl, inr,
}
use airbar_finance.Prelude.Int.{pos}
use airbar_finance.Prelude.Text.{Text, text, is_empty}
use airbar_finance.Domain.Errors.{ledger, invalid_entry}
use airbar_finance.Domain.Escrow.{Escrow}
use airbar_finance.Store.World.{Env, World, ok, err, ◌>>=◌}
use airbar_finance.Ledger.Account.{user_wallet_account, shipment_escrow_account}
use airbar_finance.Ledger.Journal.{validate_lines, new_journal}
use airbar_finance.Ledger.Post.{post_journal}
use airbar_finance.Escrow.Fee.{calc_platform_fee}
use airbar_finance.Escrow.Funding.Laws.{
  sub_64_pos, balanced_lines_valid, debit_line-IsOneSided, credit_line-IsOneSided,
  debit_line-IsTyped, credit_line-IsTyped,
}
use airbar_finance.Escrow.Release.{release_input}

module _ (shipment : Text) (e : Escrow) (balance fee : ℕ) (h : 0 < balance) (r : balance < 2 ^ 63)
    (f : fee ≤ balance) where
  release_lines_refused :
      (fee ≡ 0) ⊎ (fee ≡ balance)
      → validate_lines (release_input shipment e (pos balance) (pos fee)).lines
        ≡ err (ledger invalid_entry)
  unfolding validate_lines user_wallet_account shipment_escrow_account
  release_lines_refused (inl z) = rw (sub_64_pos balance fee f r) (ground arith)
  release_lines_refused (inr z) = rw (sub_64_pos balance fee f r) (ground arith)

  -- The lines of a release of a positive int64 balance with a fee of at most the balance are a
  -- valid journal exactly if the fee is neither 0 nor the whole balance.
  pub release_lines_valid_iff :
      (validate_lines (release_input shipment e (pos balance) (pos fee)).lines ≡ ok tt)
      ↔ (0 < fee) × (fee < balance)
  unfolding user_wallet_account shipment_escrow_account
  release_lines_valid_iff = (
    λ v. accepted v (ground arith),
    λ (p, q). rw (sub_64_pos balance fee f r) (
        balanced_lines_valid _ _
          (
            debit_line-IsTyped _ balance r,
            (
              credit_line-IsTyped _ fee (omega arith),
              (credit_line-IsTyped _ (balance - fee) (omega arith), tt),
            ),
          )
          (
            debit_line-IsOneSided _ refl balance h,
            (
              credit_line-IsOneSided _ refl fee p,
              (credit_line-IsOneSided _ refl (balance - fee) (omega arith), tt),
            ),
          )
          (omega arith)),
  )
    where
      accepted :
          validate_lines (release_input shipment e (pos balance) (pos fee)).lines ≡ ok tt
          → ((0 < fee) × (fee < balance)) ⊎ ((fee ≡ 0) ⊎ (fee ≡ balance))
          → (0 < fee) × (fee < balance)
      accepted v (inl inside) = inside
      accepted v (inr edge) = cc (v, release_lines_refused edge)

named_release : (shipment : Text) → is_empty (shipment ++ text ":release") ≡ false
named_release [] = refl
named_release (c ∷ s) = refl

-- While the platform fee of a positive int64 balance is 0 or the whole balance, posting the
-- journal of the release fails with ErrInvalidEntry and changes nothing.
pub release_refused :
    (env : Env) (shipment : Text) (e : Escrow) (balance fee : ℕ) (w : World)
    → 0 < balance
    → balance < 2 ^ 63
    → calc_platform_fee env (pos balance) ≡ pos fee
    → (fee ≡ 0) ⊎ (fee ≡ balance)
    → post_journal env
        (release_input shipment e (pos balance) (calc_platform_fee env (pos balance)))
        w
      ≡ (err (ledger invalid_entry), w)
unfolding post_journal new_journal ◌>>=◌
release_refused env shipment e balance fee w h r charged edge =
    rw
      (
        charged,
        named_release shipment,
        release_lines_refused shipment e balance fee h r (bound edge) edge,
      )
      refl
  where
    bound : (fee ≡ 0) ⊎ (fee ≡ balance) → fee ≤ balance
    bound (inl z) = omega arith
    bound (inr z) = omega arith
