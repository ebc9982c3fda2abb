-- ===== src/Withdrawal/Lifecycle.antt =====
-- internal/usecase/withdrawal/lifecycle_withdrawal.go (but FailWithdrawal) and process_withdrawal.go
use airbar_finance.Prelude.{Bool, ◌||◌, not, some}
use airbar_finance.Prelude.Text.{Text, is_empty}
use airbar_finance.Domain.Errors.{withdrawal, invalid_input, invalid_transition}
use airbar_finance.Domain.Withdrawal.{Withdrawal, approved, sent_to_bank, settled, completed}
use airbar_finance.Store.World.{Env, M, ◌>>=◌, ◌>>◌, pure, ignore, fail_if}
use airbar_finance.Store.Sql.{now_utc}
use airbar_finance.Audit.{emit_withdrawal_status_changed}
use airbar_finance.Withdrawal.Status.{status_text, is_pending, is_approved, is_sent_to_bank}
use airbar_finance.Withdrawal.Repository.{get_by_id, update}

unfoldable pub emit_status : Env → Withdrawal → M (Unit {0})
emit_status env row = ignore (emit_withdrawal_status_changed env row.id (status_text row.status))

-- `Update`, the event, and the row as the result.
unfoldable pub store : Env → Withdrawal → M Withdrawal
store env row = do update env row; emit_status env row; pure row

unfoldable pub approve_withdrawal : Env → Text → M Withdrawal
approve_withdrawal env id = do
  fail_if (is_empty id) (withdrawal invalid_input)
  row ← get_by_id env id
  fail_if (not (is_pending row.status)) (withdrawal invalid_transition)
  store env (record row { status = approved })

-- The fields of MarkWithdrawalSentInput and of ProcessWithdrawalInput.
pub record PayoutInput : Type 0 where
  pub withdrawal_id : Text
  pub provider_ref : Text
  pub payout_channel : Text
  pub receipt_url : Text

unfoldable pub lacks_receipt : PayoutInput → Bool
lacks_receipt input =
    is_empty input.withdrawal_id
    || is_empty input.provider_ref
    || is_empty input.payout_channel
    || is_empty input.receipt_url

unfoldable pub mark_withdrawal_sent : Env → PayoutInput → M Withdrawal
mark_withdrawal_sent env input = do
  fail_if (lacks_receipt input) (withdrawal invalid_input)
  row ← get_by_id env input.withdrawal_id
  fail_if (not (is_approved row.status)) (withdrawal invalid_transition)
  store env (record row {
    status = sent_to_bank;
    provider_ref = input.provider_ref;
    payout_channel = input.payout_channel;
    receipt_url = input.receipt_url;
  })

unfoldable pub settle_withdrawal : Env → Text → M Withdrawal
settle_withdrawal env id = do
  fail_if (is_empty id) (withdrawal invalid_input)
  row ← get_by_id env id
  fail_if (not (is_sent_to_bank row.status)) (withdrawal invalid_transition)
  now ← now_utc env
  store env (record row { status = settled; processed_at = some now })

unfoldable pub process_withdrawal : Env → PayoutInput → M Withdrawal
process_withdrawal env input = do
  fail_if (lacks_receipt input) (withdrawal invalid_input)
  row ← get_by_id env input.withdrawal_id
  fail_if (not (is_pending row.status)) (withdrawal invalid_transition)
  now ← now_utc env
  store env (record row {
    status = completed;
    provider_ref = input.provider_ref;
    payout_channel = input.payout_channel;
    receipt_url = input.receipt_url;
    processed_at = some now;
  })
