-- ===== src/Escrow/Refund.antt =====
-- internal/usecase/escrow/refund_escrow.go and partial_refund_escrow.go
use airbar_finance.Prelude.{◌||◌, not, some, List, [], ◌∷◌, if◌then◌else◌}
use airbar_finance.Prelude.Int.{ℤ, pos, leb_ℤ, ltb_ℤ, eqb_ℤ, sub_64}
use airbar_finance.Prelude.Text.{Text, is_empty}
use airbar_finance.Domain.Errors.{
  escrow, invalid_amount, invalid_transition, no_escrow_balance, refund_exceeds_balance,
}
use airbar_finance.Domain.Escrow.{Escrow, refunded, partially_refunded}
use airbar_finance.Store.World.{Env, M, ◌>>=◌, ◌>>◌, pure, fail_if}
use airbar_finance.Store.Sql.{with_tx, now_utc}
use airbar_finance.Ledger.Post.{PostJournalInput, post_journal}
use airbar_finance.Escrow.Status.{can_refund, can_partial_refund}
use airbar_finance.Escrow.Repository.{get_by_shipment_id, update}
use airbar_finance.Escrow.Lifecycle.{emit_escrow_status}
use airbar_finance.Escrow.Funding.{refund_allocation, build_escrow_refund_journal_lines}
use airbar_finance.Escrow.Pay.{ensure_credit_if}
use airbar_finance.Escrow.Release.{escrow_balance}

-- The loop of postEscrowRefundJournals.
unfoldable pub post_all : Env → List PostJournalInput → M (Unit {0})
post_all env [] = pure tt
post_all env (input ∷ inputs) = post_journal env input >> post_all env inputs

unfoldable pub post_escrow_refund_journals : Env → Text → Text → ℤ → ℤ → M (Unit {0})
post_escrow_refund_journals env payer_user_id shipment_id promo_refund wallet_refund =
    post_all env
      (build_escrow_refund_journal_lines payer_user_id shipment_id promo_refund wallet_refund)

-- `escrow.PromoCreditFunded -= promoRefund`, and at least 0.
unfoldable pub promo_left : ℤ → ℤ → ℤ
promo_left promo_credit_funded promo_refund =
    let left = sub_64 promo_credit_funded promo_refund in if ltb_ℤ left (pos 0) then pos 0 else left

-- The transaction's body of RefundEscrow.
unfoldable pub refund : Env → Text → M Escrow
refund env shipment_id = do
  e ← get_by_shipment_id env shipment_id
  fail_if (not (can_refund e.status)) (escrow invalid_transition)
  balance ← escrow_balance env shipment_id
  fail_if (leb_ℤ balance (pos 0)) (escrow no_escrow_balance)
  let (promo_refund, wallet_refund) = refund_allocation balance e.promo_credit_funded
  ensure_credit_if env (ltb_ℤ (pos 0) promo_refund) e.payer_user_id
  post_escrow_refund_journals env e.payer_user_id shipment_id promo_refund wallet_refund
  now ← now_utc env
  let e' = record e {
    promo_credit_funded = promo_left e.promo_credit_funded promo_refund;
    status = refunded;
    refunded_at = some now;
  }
  update env e'
  emit_escrow_status env e'
  pure e'

unfoldable pub refund_escrow : Env → Text → M Escrow
refund_escrow env shipment_id =
    fail_if (is_empty shipment_id) (escrow invalid_amount) >> with_tx env (refund env shipment_id)

-- The transaction's body of PartialRefundEscrow.
unfoldable pub partial_refund : Env → Text → ℤ → M Escrow
partial_refund env shipment_id refund_amount = do
  e ← get_by_shipment_id env shipment_id
  fail_if (not (can_partial_refund e.status)) (escrow invalid_transition)
  balance ← escrow_balance env shipment_id
  fail_if (leb_ℤ balance (pos 0)) (escrow no_escrow_balance)
  fail_if (ltb_ℤ balance refund_amount) (escrow refund_exceeds_balance)
  let (promo_refund, wallet_refund) = refund_allocation refund_amount e.promo_credit_funded
  ensure_credit_if env (ltb_ℤ (pos 0) promo_refund) e.payer_user_id
  post_escrow_refund_journals env e.payer_user_id shipment_id promo_refund wallet_refund
  now ← now_utc env
  let e' = record e {
    promo_credit_funded = promo_left e.promo_credit_funded promo_refund;
    status = if eqb_ℤ refund_amount balance then refunded else partially_refunded;
    refunded_at = some now;
  }
  update env e'
  emit_escrow_status env e'
  pure e'

unfoldable pub partial_refund_escrow : Env → Text → ℤ → M Escrow
partial_refund_escrow env shipment_id refund_amount =
    fail_if (is_empty shipment_id || leb_ℤ refund_amount (pos 0)) (escrow invalid_amount)
    >> with_tx env (partial_refund env shipment_id refund_amount)
