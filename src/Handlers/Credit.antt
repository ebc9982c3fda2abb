-- ===== src/Handlers/Credit.antt =====
-- internal/delivery/grpc/handlers/credit.go
use airbar_finance.Prelude.{ℕ, Option, List, map}
use airbar_finance.Prelude.Int.{ℤ}
use airbar_finance.Prelude.Text.{Text, text, is_empty}
use airbar_finance.Domain.Credit.{Grant, GrantStatus, active, reversed}
use airbar_finance.Domain.Errors.{credit, CreditError}
use airbar_finance.Store.World.{Env, M, ◌>>=◌, ◌>>◌, pure, lift, fail_if, map_error}
use airbar_finance.Amounts.{parse_amount, format_amount}
use airbar_finance.Ledger.Account.{user_promo_credit_account}
use airbar_finance.Accounts.Credit.{get_promo_balance}
use airbar_finance.Credit.Grants.{
  grant_credit, ReverseCreditInput, reverse_credit_grant, list_grants,
}
use airbar_finance.Handlers.Errors.{map_credit_error}

pub record GrantCreditRequest : Type 0 where
  pub user_id : Text
  pub amount : Text
  pub reason : Text
  pub campaign_ref : Text
  pub expires_at : Option ℕ
  pub granted_by : Text
  pub idempotency_key : Text

pub record CreditGrantResponse : Type 0 where
  pub id : Text
  pub user_id : Text
  pub amount : Text
  pub reason : Text
  pub campaign_ref : Text
  pub status : Text
  pub granted_by : Text
  pub created_at : ℕ
  pub reverse_reason : Text
  pub reversed_by : Text
  pub expires_at : Option ℕ
  pub reversed_at : Option ℕ

unfoldable pub grant_status_text : GrantStatus → Text
grant_status_text active = text "ACTIVE"
grant_status_text reversed = text "REVERSED"

unfoldable pub to_credit_grant_response : Grant → CreditGrantResponse
to_credit_grant_response grant = record {
  id = grant.id;
  user_id = grant.user_id;
  amount = format_amount grant.amount_rials;
  reason = grant.reason;
  campaign_ref = grant.campaign_ref;
  status = grant_status_text grant.status;
  granted_by = grant.granted_by;
  created_at = grant.created_at;
  reverse_reason = grant.reverse_reason;
  reversed_by = grant.reversed_by;
  expires_at = grant.expires_at;
  reversed_at = grant.reversed_at;
}

unfoldable pub respond : M Grant → M CreditGrantResponse
respond m = map_error map_credit_error m >>= λ grant. pure (to_credit_grant_response grant)

pub record CreditBalanceResponse : Type 0 where
  pub user_id : Text
  pub currency : Text
  pub balance : Text
  pub account_code : Text

pub record CreditGrantsResponse : Type 0 where
  pub balance : Text
  pub items : List CreditGrantResponse

module _ (env : Env) where
  -- ParseAmount of usecase/credit trims the text.
  unfoldable pub handle_grant_credit : GrantCreditRequest → M CreditGrantResponse
  handle_grant_credit req = respond do
    amount ← lift (parse_amount (credit CreditError.invalid_input) (env.trim_space req.amount))
    fail_if (is_empty req.idempotency_key) (credit CreditError.invalid_input)
    grant_credit env (record {
      user_id = req.user_id;
      amount = amount;
      reason = req.reason;
      campaign_ref = req.campaign_ref;
      expires_at = req.expires_at;
      granted_by = req.granted_by;
      idempotency_key = req.idempotency_key;
    })

  unfoldable pub handle_reverse_credit_grant : ReverseCreditInput → M CreditGrantResponse
  handle_reverse_credit_grant req = respond (reverse_credit_grant env req)

  unfoldable pub handle_get_credit_balance : Text → M CreditBalanceResponse
  handle_get_credit_balance user_id =
      map_error map_credit_error (get_promo_balance env user_id) >>= λ balance. pure (record {
        user_id = user_id;
        currency = text "IRT";
        balance = format_amount balance;
        account_code = user_promo_credit_account user_id;
      })

  unfoldable pub handle_list_credit_grants : Text → ℤ → ℤ → M CreditGrantsResponse
  handle_list_credit_grants user_id limit offset =
      map_error map_credit_error (list_grants env user_id limit offset) >>= λ result. pure (record {
        balance = format_amount result.balance;
        items = map to_credit_grant_response result.grants;
      })
