-- ===== src/Escrow/Balanced.antt =====
-- The escrow use cases keep a property that looks at no table that they write but the ledger's, such
-- as that the ledger is balanced.
use airbar_finance.Prelude.{
  ◌≢◌, if◌then◌else◌, Bool, true, false, List, [], ◌∷◌, All, inl, inr, arith, Bool-cases, Option,
  none, some,
}
use airbar_finance.Prelude.Int.{ℤ, pos, ltb_ℤ}
use airbar_finance.Prelude.Text.{Text}
use airbar_finance.Domain.Escrow.{
  Escrow, created, funded, locked, dispute_window, frozen, released, refunded, partially_refunded,
}
use airbar_finance.Store.World.{Db, Env}
use airbar_finance.Store.Keeps.{
  Keeps, Keeps-pure, Keeps-bind, Keeps-ignore, Keeps-fail_if, Keeps-with_tx, keeps_rules,
}
use airbar_finance.Ledger.Post.{PostJournalInput}
use airbar_finance.Ledger.Post.Keeps.{IsNarrow, two_IsNarrow}
use airbar_finance.Ledger.Post.Ignores.{Ignores, posting-Keeps}
use airbar_finance.Accounts.Keeps.{
  sum_by_account-Keeps, get_balance-Keeps, get_promo_balance-Keeps, ensure_credit_account-Keeps,
}
use airbar_finance.Audit.{emit-Keeps, emit_escrow_created, emit_escrow_status_changed}
use airbar_finance.Escrow.Repository.{create, get_by_shipment_id, update}
use airbar_finance.Escrow.Repository.Keeps.{create-Keeps, get_by_shipment_id-Keeps, update-Keeps}
use airbar_finance.Escrow.Funding.{
  PayerFundingSplit, build_escrow_pay_journal_lines, build_escrow_refund_journal_lines,
}
use airbar_finance.Escrow.Lifecycle.{
  emit_escrow_status, CreateEscrowInput, create_escrow, mark_delivered, freeze_escrow,
}
use airbar_finance.Escrow.Pay.{ensure_credit_if, PayFromWalletInput, pay, pay_from_wallet}
use airbar_finance.Escrow.Fund.{FundEscrowInput, fund, fund_in, fund_escrow}
use airbar_finance.Escrow.Release.{escrow_balance, release, release_escrow}
use airbar_finance.Escrow.Refund.{
  post_all, post_escrow_refund_journals, refund, refund_escrow, partial_refund,
  partial_refund_escrow,
}

-- The statuses that the use cases store.
created-ne-locked : created ≢ locked
created-ne-locked e = cc e

funded-ne-locked : funded ≢ locked
funded-ne-locked e = cc e

dispute_window-ne-locked : dispute_window ≢ locked
dispute_window-ne-locked e = cc e

frozen-ne-locked : frozen ≢ locked
frozen-ne-locked e = cc e

released-ne-locked : released ≢ locked
released-ne-locked e = cc e

refunded-ne-locked : refunded ≢ locked
refunded-ne-locked e = cc e

after_partial-ne-locked : (b : Bool) → (if b then refunded else partially_refunded) ≢ locked
after_partial-ne-locked true e = cc e
after_partial-ne-locked false e = cc e

ruleset stored_statuses = (
  created-ne-locked, funded-ne-locked, dispute_window-ne-locked, frozen-ne-locked,
  released-ne-locked, refunded-ne-locked, after_partial-ne-locked,
)

module _ {P : Db → Type 0} (k : Ignores P) where
  emit_escrow_status-Keeps : (env : Env) (e : Escrow) → Keeps P (emit_escrow_status env e)
  unfolding emit_escrow_status emit_escrow_status_changed
  emit_escrow_status-Keeps env e = Keeps-ignore _ (emit-Keeps k.finance_events env _ _ _ _)

  emit_escrow_created-Keeps : (env : Env) (i s t : Text) → Keeps P (emit_escrow_created env i s t)
  unfolding emit_escrow_created
  emit_escrow_created-Keeps env i s t = emit-Keeps k.finance_events env _ _ _ _

  escrow_create-Keeps : (env : Env) (e : Escrow) → e.status ≢ locked → Keeps P (create env e)
  escrow_create-Keeps = create-Keeps k.escrow_insertion k.escrow_update

  pub escrow_get-Keeps : (env : Env) (s : Text) → Keeps P (get_by_shipment_id env s)
  escrow_get-Keeps = get_by_shipment_id-Keeps

  escrow_update-Keeps : (env : Env) (e : Escrow) → e.status ≢ locked → Keeps P (update env e)
  escrow_update-Keeps = update-Keeps k.escrow_insertion k.escrow_update

  ensure_credit_if-Keeps : (env : Env) (b : Bool) (u : Text) → Keeps P (ensure_credit_if env b u)
  unfolding ensure_credit_if
  ensure_credit_if-Keeps env true u =
      Keeps-bind _ _ (ensure_credit_account-Keeps k.credit_accounts env u) (λ _. Keeps-pure tt)
  ensure_credit_if-Keeps env false u = Keeps-pure tt

  escrow_balance-Keeps : (env : Env) (s : Text) → Keeps P (escrow_balance env s)
  unfolding escrow_balance
  escrow_balance-Keeps env s = search (keeps_rules, sum_by_account-Keeps)

ruleset escrow_keeps = (
  keeps_rules, stored_statuses, emit_escrow_status-Keeps, emit_escrow_created-Keeps,
  escrow_create-Keeps, escrow_get-Keeps, escrow_update-Keeps, ensure_credit_if-Keeps,
  escrow_balance-Keeps, get_balance-Keeps, get_promo_balance-Keeps, posting-Keeps,
)

module _ {P : Db → Type 0} (k : Ignores P) where
  -- Creating an escrow.
  pub create_escrow-Keeps :
      (env : Env) (input : CreateEscrowInput) → Keeps P (create_escrow env input)
  unfolding create_escrow
  create_escrow-Keeps env input = search escrow_keeps depth 12

  pub mark_delivered-Keeps : (env : Env) (s : Text) → Keeps P (mark_delivered env s)
  unfolding mark_delivered
  mark_delivered-Keeps env s = search escrow_keeps depth 12

  pub freeze_escrow-Keeps : (env : Env) (s : Text) → Keeps P (freeze_escrow env s)
  unfolding freeze_escrow
  freeze_escrow-Keeps env s = search escrow_keeps depth 12

pay_lines-IsNarrow :
    (payer shipment : Text) (split : PayerFundingSplit)
    → IsNarrow (build_escrow_pay_journal_lines payer shipment split)
unfolding build_escrow_pay_journal_lines
pay_lines-IsNarrow payer shipment split = elim (Bool-cases (ltb_ℤ (pos 0) split.promo_part)) [
  | inl p ↦ elim (Bool-cases (ltb_ℤ (pos 0) split.wallet_part)) [
    | inl q ↦ rw (p, q) (λ h. ground arith)
    | inr q ↦ rw (p, q) (λ h. ground arith)
  ]
  | inr p ↦ elim (Bool-cases (ltb_ℤ (pos 0) split.wallet_part)) [
    | inl q ↦ rw (p, q) (λ h. ground arith)
    | inr q ↦ rw (p, q) (λ h. ground arith)
  ]
]

module _ {P : Db → Type 0} (k : Ignores P) where
  pay-Keeps : (env : Env) (input : PayFromWalletInput) → Keeps P (pay env input)
  unfolding pay
  pay-Keeps env input = search (escrow_keeps, pay_lines-IsNarrow) depth 24

  fund-Keeps : (env : Env) (input : FundEscrowInput) → Keeps P (fund env input)
  unfolding fund
  fund-Keeps env input = search (escrow_keeps, two_IsNarrow) depth 24

release_lines-IsNarrow :
    (x y z : Text) (b f c : ℤ)
    → IsNarrow (
        record { account_code = x; debit = b; credit = pos 0 }
        ∷ record { account_code = y; debit = pos 0; credit = f }
        ∷ record { account_code = z; debit = pos 0; credit = c }
        ∷ [])
release_lines-IsNarrow x y z b f c = λ h. ground arith

module _ {P : Db → Type 0} (k : Ignores P) where
  release-Keeps : (env : Env) (s : Text) → Keeps P (release env s)
  unfolding release
  release-Keeps env s = search (escrow_keeps, release_lines-IsNarrow) depth 24

  fund_in-Keeps :
      (env : Env) (t : Option Db) (input : FundEscrowInput) → Keeps P (fund_in env t input)
  unfolding fund_in
  fund_in-Keeps env none input = Keeps-with_tx env _ (fund-Keeps k env input)
  fund_in-Keeps env (some v) input = fund-Keeps k env input

  post_all-Keeps :
      (env : Env) (inputs : List PostJournalInput)
      → All (λ input. IsNarrow input.lines) inputs
      → Keeps P (post_all env inputs)
  unfolding post_all
  post_all-Keeps env [] h = Keeps-pure tt
  post_all-Keeps env (input ∷ inputs) (one, rest) =
      Keeps-bind _ _ (k.posting env input one) (λ _. post_all-Keeps env inputs rest)

  refund_lines-Keeps :
      (env : Env) (payer shipment : Text) (promo wallet : ℤ)
      → Keeps P (post_escrow_refund_journals env payer shipment promo wallet)
  unfolding post_escrow_refund_journals build_escrow_refund_journal_lines
  refund_lines-Keeps env payer shipment promo wallet = elim (Bool-cases (ltb_ℤ (pos 0) promo)) [
    | inl p ↦ elim (Bool-cases (ltb_ℤ (pos 0) wallet)) [
      | inl q ↦
          rw (p, q) (post_all-Keeps env (_ ∷ _ ∷ []) (two_IsNarrow _ _, (two_IsNarrow _ _, tt)))
      | inr q ↦ rw (p, q) (post_all-Keeps env (_ ∷ []) (two_IsNarrow _ _, tt))
    ]
    | inr p ↦ elim (Bool-cases (ltb_ℤ (pos 0) wallet)) [
      | inl q ↦ rw (p, q) (post_all-Keeps env (_ ∷ []) (two_IsNarrow _ _, tt))
      | inr q ↦ rw (p, q) (post_all-Keeps env [] tt)
    ]
  ]

ruleset refund_keeps = (escrow_keeps, refund_lines-Keeps)

module _ {P : Db → Type 0} (k : Ignores P) where
  refund-Keeps : (env : Env) (s : Text) → Keeps P (refund env s)
  unfolding refund
  refund-Keeps env s = search refund_keeps depth 24

  partial_refund-Keeps : (env : Env) (s : Text) (a : ℤ) → Keeps P (partial_refund env s a)
  unfolding partial_refund
  partial_refund-Keeps env s a = search refund_keeps depth 24

module _ {P : Db → Type 0} (k : Ignores P) (env : Env) where
  pub fund_escrow-Keeps : (input : FundEscrowInput) → Keeps P (fund_escrow env input)
  unfolding fund_escrow
  fund_escrow-Keeps input =
      Keeps-bind _ _ (Keeps-fail_if _ _)
        λ _. record { at = λ w h. (fund_in-Keeps k env w.tx input).at w h }

  pub pay_from_wallet-Keeps : (input : PayFromWalletInput) → Keeps P (pay_from_wallet env input)
  unfolding pay_from_wallet
  pay_from_wallet-Keeps input = search (keeps_rules, pay-Keeps)

  pub release_escrow-Keeps : (s : Text) → Keeps P (release_escrow env s)
  unfolding release_escrow
  release_escrow-Keeps s = search (keeps_rules, release-Keeps)

  pub refund_escrow-Keeps : (s : Text) → Keeps P (refund_escrow env s)
  unfolding refund_escrow
  refund_escrow-Keeps s = search (keeps_rules, refund-Keeps)

  pub partial_refund_escrow-Keeps : (s : Text) (a : ℤ) → Keeps P (partial_refund_escrow env s a)
  unfolding partial_refund_escrow
  partial_refund_escrow-Keeps s a = search (keeps_rules, partial_refund-Keeps)
