-- ===== src/Handlers/Withdrawal.antt =====
-- internal/delivery/grpc/handlers/withdrawal.go
use airbar_finance.Prelude.{ℕ, Bool, Option, List, map}
use airbar_finance.Prelude.Text.{Text}
use airbar_finance.Domain.Errors.{withdrawal, WithdrawalError}
use airbar_finance.Domain.Withdrawal.{Withdrawal}
use airbar_finance.Store.World.{Env, M, ◌>>=◌, pure, lift, map_error}
use airbar_finance.Amounts.{parse_amount, format_amount}
use airbar_finance.Withdrawal.Status.{status_text}
use airbar_finance.Withdrawal.Repository.{list_withdrawals}
use airbar_finance.Withdrawal.Create.{create_withdrawal}
use airbar_finance.Withdrawal.Lifecycle.{
  PayoutInput, approve_withdrawal, mark_withdrawal_sent, settle_withdrawal, process_withdrawal,
}
use airbar_finance.Withdrawal.Reversal.{reject_withdrawal, fail_withdrawal}
use airbar_finance.Handlers.Errors.{map_withdrawal_error}

pub record CreateWithdrawalRequest : Type 0 where
  pub user_id : Text
  pub amount : Text
  pub destination_iban : Text
  pub user_active : Bool
  pub financial_kyc_approved : Bool

pub record WithdrawalResponse : Type 0 where
  pub id : Text
  pub user_id : Text
  pub amount : Text
  pub status : Text
  pub provider_ref : Text
  pub payout_channel : Text
  pub receipt_url : Text
  pub created_at : ℕ
  pub processed_at : Option ℕ

unfoldable pub to_withdrawal_response : Withdrawal → WithdrawalResponse
to_withdrawal_response w = record {
  id = w.id;
  user_id = w.user_id;
  amount = format_amount w.amount;
  status = status_text w.status;
  provider_ref = w.provider_ref;
  payout_channel = w.payout_channel;
  receipt_url = w.receipt_url;
  created_at = w.created_at;
  processed_at = w.processed_at;
}

unfoldable pub respond : M Withdrawal → M WithdrawalResponse
respond m = map_error map_withdrawal_error m >>= λ w. pure (to_withdrawal_response w)

module _ (env : Env) where
  unfoldable pub handle_create_withdrawal : CreateWithdrawalRequest → M WithdrawalResponse
  handle_create_withdrawal req = respond do
    amount ← lift (parse_amount (withdrawal WithdrawalError.invalid_input) req.amount)
    create_withdrawal env (record {
      user_id = req.user_id;
      amount = amount;
      destination_iban = req.destination_iban;
      user_active = req.user_active;
      financial_kyc_approved = req.financial_kyc_approved;
    })

  unfoldable pub handle_list_withdrawals : Text → Text → M (List WithdrawalResponse)
  handle_list_withdrawals user_id status =
      map_error map_withdrawal_error (list_withdrawals env user_id status) >>= λ items.
      pure (map to_withdrawal_response items)

  unfoldable pub handle_approve_withdrawal : Text → M WithdrawalResponse
  handle_approve_withdrawal id = respond (approve_withdrawal env id)

  unfoldable pub handle_mark_withdrawal_sent : PayoutInput → M WithdrawalResponse
  handle_mark_withdrawal_sent req = respond (mark_withdrawal_sent env req)

  unfoldable pub handle_settle_withdrawal : Text → M WithdrawalResponse
  handle_settle_withdrawal id = respond (settle_withdrawal env id)

  unfoldable pub handle_fail_withdrawal : Text → Text → M WithdrawalResponse
  handle_fail_withdrawal id reason = respond (fail_withdrawal env id reason)

  unfoldable pub handle_process_withdrawal : PayoutInput → M WithdrawalResponse
  handle_process_withdrawal req = respond (process_withdrawal env req)

  unfoldable pub handle_reject_withdrawal : Text → Text → M WithdrawalResponse
  handle_reject_withdrawal id reason = respond (reject_withdrawal env id reason)
