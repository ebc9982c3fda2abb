-- ===== src/Escrow/Release.antt =====
-- internal/usecase/escrow/balance.go and release_escrow.go
pub mod Lines
use airbar_finance.Prelude.{Bool, not, some, [], ◌∷◌, ◌++◌}
use airbar_finance.Prelude.Int.{ℤ, pos, leb_ℤ, sub_64}
use airbar_finance.Prelude.Text.{Text, text, is_empty}
use airbar_finance.Domain.Errors.{escrow, invalid_amount, invalid_transition, no_escrow_balance}
use airbar_finance.Domain.Escrow.{Escrow, released}
use airbar_finance.Domain.Ledger.{escrow_release}
use airbar_finance.Store.World.{Env, M, ◌>>=◌, ◌>>◌, pure, ignore, fail_if}
use airbar_finance.Store.Sql.{with_tx, now_utc}
use airbar_finance.Ledger.Account.{airbar_fee_revenue, user_wallet_account, shipment_escrow_account}
use airbar_finance.Ledger.Repository.{sum_by_account}
use airbar_finance.Ledger.Post.{PostJournalInput, post_journal}
use airbar_finance.Escrow.Status.{can_release}
use airbar_finance.Escrow.Fee.{calc_platform_fee}
use airbar_finance.Escrow.Repository.{get_by_shipment_id, update}
use airbar_finance.Escrow.Lifecycle.{emit_escrow_status}

-- `EscrowBalance`: credit - debit.
unfoldable pub escrow_balance : Env → Text → M ℤ
escrow_balance env shipment_id = do
  (debit, credit) ← sum_by_account env (shipment_escrow_account shipment_id)
  pure (sub_64 credit debit)

abbrev pub release_input : Text → Escrow → ℤ → ℤ → PostJournalInput
release_input shipment_id e balance fee = record {
  ref_type = escrow_release;
  ref_id = shipment_id ++ text ":release";
  description = text "Release escrow to carrier";
  lines =
      record { account_code = shipment_escrow_account shipment_id; debit = balance; credit = pos 0 }
      ∷ record { account_code = airbar_fee_revenue; debit = pos 0; credit = fee }
      ∷ record {
        account_code = user_wallet_account e.carrier_user_id;
        debit = pos 0;
        credit = sub_64 balance fee;
      }
      ∷ [];
}

-- The transaction's body.
unfoldable pub release : Env → Text → M Escrow
release env shipment_id = do
  e ← get_by_shipment_id env shipment_id
  fail_if (not (can_release e.status)) (escrow invalid_transition)
  balance ← escrow_balance env shipment_id
  fail_if (leb_ℤ balance (pos 0)) (escrow no_escrow_balance)
  post_journal env (release_input shipment_id e balance (calc_platform_fee env balance))
  now ← now_utc env
  let e' = record e { status = released; released_at = some now }
  update env e'
  emit_escrow_status env e'
  pure e'

unfoldable pub release_escrow : Env → Text → M Escrow
release_escrow env shipment_id =
    fail_if (is_empty shipment_id) (escrow invalid_amount) >> with_tx env (release env shipment_id)
