-- ===== src/Escrow/Pay.antt =====
-- internal/usecase/escrow/pay_from_wallet.go
use airbar_finance.Prelude.{Bool, true, false, ◌||◌, not, some, ◌++◌}
use airbar_finance.Prelude.Int.{ℤ, pos, leb_ℤ, ltb_ℤ, eqb_ℤ}
use airbar_finance.Prelude.Text.{Text, text, same, is_empty}
use airbar_finance.Domain.Errors.{
  escrow, invalid_amount, invalid_transition, payer_mismatch, amount_mismatch,
}
use airbar_finance.Domain.Escrow.{Escrow, funded}
use airbar_finance.Store.World.{Env, M, ◌>>=◌, ◌>>◌, pure, lift, fail_if}
use airbar_finance.Store.Sql.{with_tx, now_utc}
use airbar_finance.Accounts.Wallet.{get_balance}
use airbar_finance.Accounts.Credit.{ensure_credit_account, get_promo_balance}
use airbar_finance.Ledger.Post.{post_journal}
use airbar_finance.Escrow.Status.{can_pay_from_wallet}
use airbar_finance.Escrow.Repository.{get_by_shipment_id, update}
use airbar_finance.Escrow.Lifecycle.{emit_escrow_status}
use airbar_finance.Escrow.Funding.{
  resolve_payer_funding_split, ref_type_for_escrow_pay, build_escrow_pay_journal_lines,
  funding_source_for_split,
}

pub record PayFromWalletInput : Type 0 where
  pub shipment_id : Text
  pub payer_user_id : Text
  pub amount : ℤ

-- `ensureCredit.Execute` where the test holds, its account dropped.
unfoldable pub ensure_credit_if : Env → Bool → Text → M (Unit {0})
ensure_credit_if env needed user_id = elim needed [
  | true ↦ ensure_credit_account env user_id >> pure tt
  | false ↦ pure tt
]

-- The transaction's body.
unfoldable pub pay : Env → PayFromWalletInput → M Escrow
pay env input = do
  e ← get_by_shipment_id env input.shipment_id
  fail_if (not (same e.payer_user_id input.payer_user_id)) (escrow payer_mismatch)
  fail_if (not (eqb_ℤ e.amount input.amount)) (escrow amount_mismatch)
  fail_if (not (can_pay_from_wallet e.status)) (escrow invalid_transition)
  promo_balance ← get_promo_balance env input.payer_user_id
  wallet_balance ← get_balance env input.payer_user_id
  split ← lift (resolve_payer_funding_split input.amount promo_balance wallet_balance)
  ensure_credit_if env (ltb_ℤ (pos 0) split.promo_part) input.payer_user_id
  post_journal env (record {
    ref_type = ref_type_for_escrow_pay split;
    ref_id = input.shipment_id ++ text ":wallet-pay";
    description = text "Pay escrow from promo credit and wallet";
    lines = build_escrow_pay_journal_lines input.payer_user_id input.shipment_id split;
  })
  now ← now_utc env
  let e' = record e {
    status = funded;
    funding_source = funding_source_for_split split;
    promo_credit_funded = split.promo_part;
    funded_at = some now;
  }
  update env e'
  emit_escrow_status env e'
  pure e'

unfoldable pub pay_from_wallet : Env → PayFromWalletInput → M Escrow
pay_from_wallet env input =
    fail_if
      (is_empty input.shipment_id || is_empty input.payer_user_id || leb_ℤ input.amount (pos 0))
      (escrow invalid_amount)
    >> with_tx env (pay env input)
