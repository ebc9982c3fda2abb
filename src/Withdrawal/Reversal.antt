-- ===== src/Withdrawal/Reversal.antt =====
-- internal/usecase/withdrawal/reject_withdrawal.go, and FailWithdrawal of lifecycle_withdrawal.go
use airbar_finance.Prelude.{◌||◌, not, some, [], ◌∷◌, ◌++◌}
use airbar_finance.Prelude.Int.{pos}
use airbar_finance.Prelude.Text.{Text, text, is_empty}
use airbar_finance.Domain.Errors.{withdrawal, invalid_input, invalid_transition}
use airbar_finance.Domain.Ledger.{withdrawal_reject_reversal}
use airbar_finance.Domain.Withdrawal.{Withdrawal, failed, rejected}
use airbar_finance.Store.World.{Env, M, ◌>>=◌, ◌>>◌, fail_if}
use airbar_finance.Store.Sql.{with_tx, now_utc}
use airbar_finance.Ledger.Account.{user_wallet_account, ir_payout_clearing}
use airbar_finance.Ledger.Post.{PostJournalInput, post_journal}
use airbar_finance.Withdrawal.Status.{is_pending, is_approved, is_sent_to_bank}
use airbar_finance.Withdrawal.Repository.{get_by_id}
use airbar_finance.Withdrawal.Lifecycle.{store}

-- The journal of both use cases, which differ in the end of `ref_id` and in `description`.
abbrev pub reversal_input : Text → Text → Withdrawal → PostJournalInput
reversal_input suffix description row = record {
  ref_type = withdrawal_reject_reversal;
  ref_id = row.id ++ suffix;
  description = description;
  lines =
      record { account_code = ir_payout_clearing; debit = row.amount; credit = pos 0 }
      ∷ record {
        account_code = user_wallet_account row.user_id;
        debit = pos 0;
        credit = row.amount;
      }
      ∷ [];
}

-- The transaction's body of RejectWithdrawal.
unfoldable pub reject : Env → Text → Text → M Withdrawal
reject env id reason = do
  row ← get_by_id env id
  fail_if (not (is_pending row.status)) (withdrawal invalid_transition)
  post_journal env (reversal_input (text ":reject") (text "Withdrawal reject reversal") row)
  now ← now_utc env
  store env (record row { status = rejected; reject_reason = reason; processed_at = some now })

unfoldable pub reject_withdrawal : Env → Text → Text → M Withdrawal
reject_withdrawal env id reason =
    fail_if (is_empty id) (withdrawal invalid_input) >> with_tx env (reject env id reason)

-- The transaction's body of FailWithdrawal.
unfoldable pub fail_payout : Env → Text → Text → M Withdrawal
fail_payout env id reason = do
  row ← get_by_id env id
  fail_if (not (is_approved row.status || is_sent_to_bank row.status))
      (withdrawal invalid_transition)
  post_journal env (reversal_input (text ":fail") (text "Withdrawal failure reversal") row)
  now ← now_utc env
  store env (record row { status = failed; reject_reason = reason; processed_at = some now })

unfoldable pub fail_withdrawal : Env → Text → Text → M Withdrawal
fail_withdrawal env id reason =
    fail_if (is_empty id || is_empty reason) (withdrawal invalid_input)
    >> with_tx env (fail_payout env id reason)
