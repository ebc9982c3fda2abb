-- ===== src/Escrow/Atomic.antt =====
-- What the transactions of the escrow use cases leave of the committed tables.
use airbar_finance.Prelude.{◌≡◌, refl, Bool, true, false, Option, none, some, List, [], ◌∷◌}
use airbar_finance.Prelude.Int.{ℤ}
use airbar_finance.Prelude.Text.{Text}
use airbar_finance.Domain.Escrow.{Escrow}
use airbar_finance.Store.World.{Db, Env, World}
use airbar_finance.Store.Atomic.{
  Within, Shields, Shields-pure, Shields-bind, Shields-fail_if, shields_rules,
}
use airbar_finance.Audit.{emit, emit_escrow_status_changed}
use airbar_finance.Ledger.Repository.Atomic.{Unchanged}
use airbar_finance.Ledger.Post.{PostJournalInput}
use airbar_finance.Ledger.Post.Atomic.{
  ensure_credit_account-Shields, sum_by_account-Shields, get_balance-Shields,
  get_promo_balance-Shields, post_journal-Shields,
}
use airbar_finance.Escrow.Repository.{get_by_shipment_id, update as update_row}
use airbar_finance.Escrow.Lifecycle.{emit_escrow_status}
use airbar_finance.Escrow.Pay.{ensure_credit_if, PayFromWalletInput, pay}
use airbar_finance.Escrow.Fund.{FundEscrowInput, fund, fund_in, fund_escrow}
use airbar_finance.Escrow.Release.{escrow_balance, release}
use airbar_finance.Escrow.Refund.{post_all, post_escrow_refund_journals, refund, partial_refund}

module _ {old : Db} (env : Env) where
  get_by_shipment_id-Shields : (s : Text) → Shields (Unchanged old) (get_by_shipment_id env s)
  unfolding get_by_shipment_id
  get_by_shipment_id-Shields s = search shields_rules

  update_row-Shields : (e : Escrow) → Shields (Unchanged old) (update_row env e)
  unfolding update_row
  update_row-Shields e = search shields_rules depth 8

  emit_escrow_status-Shields : (e : Escrow) → Shields (Unchanged old) (emit_escrow_status env e)
  unfolding emit_escrow_status emit_escrow_status_changed emit
  emit_escrow_status-Shields e = search shields_rules depth 8

  ensure_credit_if-Shields :
      (b : Bool) (u : Text) → Shields (Unchanged old) (ensure_credit_if env b u)
  unfolding ensure_credit_if
  ensure_credit_if-Shields true u =
      Shields-bind _ _ (ensure_credit_account-Shields env u) (λ _. Shields-pure tt)
  ensure_credit_if-Shields false u = Shields-pure tt

  escrow_balance-Shields : (s : Text) → Shields (Unchanged old) (escrow_balance env s)
  unfolding escrow_balance
  escrow_balance-Shields s = search (shields_rules, sum_by_account-Shields)

  post_all-Shields :
      (inputs : List PostJournalInput) → Shields (Unchanged old) (post_all env inputs)
  unfolding post_all
  post_all-Shields [] = Shields-pure tt
  post_all-Shields (input ∷ inputs) =
      Shields-bind _ _ (post_journal-Shields env input) (λ _. post_all-Shields inputs)

  post_escrow_refund_journals-Shields :
      (payer shipment : Text) (promo wallet : ℤ)
      → Shields (Unchanged old) (post_escrow_refund_journals env payer shipment promo wallet)
  unfolding post_escrow_refund_journals
  post_escrow_refund_journals-Shields payer shipment promo wallet = post_all-Shields _

ruleset escrow_shields = (
  shields_rules, get_by_shipment_id-Shields, update_row-Shields, emit_escrow_status-Shields,
  ensure_credit_if-Shields, escrow_balance-Shields, post_escrow_refund_journals-Shields,
  get_balance-Shields, get_promo_balance-Shields, post_journal-Shields,
)

module _ {old : Db} (env : Env) where
  pub pay-Shields : (input : PayFromWalletInput) → Shields (Unchanged old) (pay env input)
  unfolding pay
  pay-Shields input = search escrow_shields depth 24

  pub release-Shields : (s : Text) → Shields (Unchanged old) (release env s)
  unfolding release
  release-Shields s = search escrow_shields depth 24

  pub refund-Shields : (s : Text) → Shields (Unchanged old) (refund env s)
  unfolding refund
  refund-Shields s = search escrow_shields depth 24

  pub partial_refund-Shields : (s : Text) (a : ℤ) → Shields (Unchanged old) (partial_refund env s a)
  unfolding partial_refund
  partial_refund-Shields s a = search escrow_shields depth 24

  fund-Shields : (input : FundEscrowInput) → Shields (Unchanged old) (fund env input)
  unfolding fund
  fund-Shields input = search escrow_shields depth 24

  fund_in-Within :
      (t : Option Db) (input : FundEscrowInput) (w : World)
      → w.tx ≡ t
      → Within (Unchanged old) w
      → Within (Unchanged old) (fund_in env t input w).1
  unfolding fund_in
  fund_in-Within none input w e h = absurd (h.open_tx e)
  fund_in-Within (some v) input w e h = (fund-Shields input).at w h

  -- Within a transaction, FundEscrow works in it.
  pub fund_escrow-Shields :
      (input : FundEscrowInput) → Shields (Unchanged old) (fund_escrow env input)
  unfolding fund_escrow
  fund_escrow-Shields input =
      Shields-bind _ _ (Shields-fail_if _ _)
        λ _. record { at = λ w h. fund_in-Within w.tx input w refl h }
