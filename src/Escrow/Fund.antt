-- ===== src/Escrow/Fund.antt =====
-- internal/usecase/escrow/fund_escrow.go
use airbar_finance.Prelude.{◌||◌, not, Option, none, some, [], ◌∷◌, ◌++◌}
use airbar_finance.Prelude.Int.{pos}
use airbar_finance.Prelude.Text.{Text, text, is_empty}
use airbar_finance.Domain.Errors.{escrow, invalid_amount, invalid_transition}
use airbar_finance.Domain.Escrow.{Escrow, funded, psp}
use airbar_finance.Domain.Ledger.{psp_to_wallet, wallet_to_escrow}
use airbar_finance.Store.World.{Db, Env, M, ◌>>=◌, ◌>>◌, pure, fail_if}
use airbar_finance.Store.Sql.{with_tx, now_utc}
use airbar_finance.Ledger.Account.{ir_psp_clearing, user_wallet_account, shipment_escrow_account}
use airbar_finance.Ledger.Post.{PostJournalInput, post_journal}
use airbar_finance.Escrow.Status.{can_fund}
use airbar_finance.Escrow.Repository.{get_by_shipment_id, update}
use airbar_finance.Escrow.Lifecycle.{emit_escrow_status}

pub record FundEscrowInput : Type 0 where
  pub shipment_id : Text
  pub payment_order_id : Text

abbrev pub psp_to_wallet_input : FundEscrowInput → Escrow → PostJournalInput
psp_to_wallet_input input e = record {
  ref_type = psp_to_wallet;
  ref_id = input.shipment_id ++ (text ":psp-wallet:" ++ input.payment_order_id);
  description = text "PSP credit to payer wallet";
  lines =
      record { account_code = ir_psp_clearing; debit = e.amount; credit = pos 0 }
      ∷ record {
        account_code = user_wallet_account e.payer_user_id;
        debit = pos 0;
        credit = e.amount;
      }
      ∷ [];
}

abbrev pub wallet_to_escrow_input : FundEscrowInput → Escrow → PostJournalInput
wallet_to_escrow_input input e = record {
  ref_type = wallet_to_escrow;
  ref_id = input.shipment_id ++ (text ":wallet-escrow:" ++ input.payment_order_id);
  description = text "Fund escrow from payer wallet";
  lines =
      record {
        account_code = user_wallet_account e.payer_user_id;
        debit = e.amount;
        credit = pos 0;
      }
      ∷ record {
        account_code = shipment_escrow_account input.shipment_id;
        debit = pos 0;
        credit = e.amount;
      }
      ∷ [];
}

-- `execute`
unfoldable pub fund : Env → FundEscrowInput → M Escrow
fund env input = do
  e ← get_by_shipment_id env input.shipment_id
  fail_if (not (can_fund e.status)) (escrow invalid_transition)
  post_journal env (psp_to_wallet_input input e)
  post_journal env (wallet_to_escrow_input input e)
  now ← now_utc env
  let e' = record e {
    status = funded;
    payment_order_id = input.payment_order_id;
    funding_source = psp;
    funded_at = some now;
  }
  update env e'
  emit_escrow_status env e'
  pure e'

-- In the transaction of the context, or in one of its own.
unfoldable pub fund_in : Env → Option Db → FundEscrowInput → M Escrow
fund_in env none input = with_tx env (fund env input)
fund_in env (some v) input = fund env input

unfoldable pub fund_escrow : Env → FundEscrowInput → M Escrow
fund_escrow env input =
    fail_if (is_empty input.shipment_id || is_empty input.payment_order_id) (escrow invalid_amount)
    >> λ w. fund_in env w.tx input w
