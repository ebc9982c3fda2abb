-- ===== src/Withdrawal/Create.antt =====
-- internal/usecase/withdrawal/create_withdrawal.go
use airbar_finance.Prelude.{Bool, ◌||◌, not, none, [], ◌∷◌, ◌++◌}
use airbar_finance.Prelude.Int.{ℤ, pos, leb_ℤ, ltb_ℤ}
use airbar_finance.Prelude.Text.{Text, text, is_empty}
use airbar_finance.Domain.Errors.{
  withdrawal, invalid_input, user_inactive, kyc_not_approved, insufficient_wallet,
}
use airbar_finance.Domain.Ledger.{withdrawal_reserve}
use airbar_finance.Domain.Withdrawal.{Withdrawal, pending}
use airbar_finance.Store.World.{Env, M, ◌>>=◌, ◌>>◌, pure, ignore, fail_if}
use airbar_finance.Store.Sql.{with_tx}
use airbar_finance.Accounts.Wallet.{get_balance}
use airbar_finance.Audit.{emit_withdrawal_created}
use airbar_finance.Ledger.Account.{user_wallet_account, ir_payout_clearing}
use airbar_finance.Ledger.Post.{PostJournalInput, post_journal}
use airbar_finance.Withdrawal.Status.{status_text, hash_destination}
use airbar_finance.Withdrawal.Repository.{create}

pub record CreateWithdrawalInput : Type 0 where
  pub user_id : Text
  pub amount : ℤ
  pub destination_iban : Text
  pub user_active : Bool
  pub financial_kyc_approved : Bool

abbrev pub new_withdrawal : Env → CreateWithdrawalInput → Withdrawal
new_withdrawal env input = record {
  id = [];
  user_id = input.user_id;
  amount = input.amount;
  status = pending;
  destination_hash = hash_destination env input.destination_iban;
  provider_ref = [];
  payout_channel = [];
  receipt_url = [];
  reject_reason = [];
  processed_at = none;
  created_at = 0;
  updated_at = 0;
}

abbrev pub reserve_input : CreateWithdrawalInput → Text → PostJournalInput
reserve_input input id = record {
  ref_type = withdrawal_reserve;
  ref_id = id ++ text ":reserve";
  description = text "Withdrawal reserve";
  lines =
      record {
        account_code = user_wallet_account input.user_id;
        debit = input.amount;
        credit = pos 0;
      }
      ∷ record { account_code = ir_payout_clearing; debit = pos 0; credit = input.amount }
      ∷ [];
}

-- The transaction's body.
unfoldable pub reserve : Env → CreateWithdrawalInput → M Withdrawal
reserve env input = do
  row ← create env (new_withdrawal env input)
  ignore (emit_withdrawal_created env row.id row.user_id (status_text row.status))
  post_journal env (reserve_input input row.id)
  pure row

unfoldable pub create_withdrawal : Env → CreateWithdrawalInput → M Withdrawal
create_withdrawal env input = do
  fail_if (is_empty input.user_id || leb_ℤ input.amount (pos 0) || is_empty input.destination_iban)
      (withdrawal invalid_input)
  fail_if (not input.user_active) (withdrawal user_inactive)
  fail_if (not input.financial_kyc_approved) (withdrawal kyc_not_approved)
  balance ← get_balance env input.user_id
  fail_if (ltb_ℤ balance input.amount) (withdrawal insufficient_wallet)
  with_tx env (reserve env input)
