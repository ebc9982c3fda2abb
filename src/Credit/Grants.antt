-- ===== src/Credit/Grants.antt =====
-- internal/usecase/credit/grant_credit.go, reverse_credit.go and list_grants.go
use airbar_finance.Prelude.{ℕ, ◌||◌, not, Option, none, some, List, [], ◌∷◌, ◌++◌}
use airbar_finance.Prelude.Int.{ℤ, pos, leb_ℤ}
use airbar_finance.Prelude.Text.{Text, text, is_empty}
use airbar_finance.Domain.Errors.{credit, invalid_input, already_reversed}
use airbar_finance.Domain.Credit.{Grant, active, reversed}
use airbar_finance.Domain.Ledger.{promo_credit_grant, promo_credit_reverse}
use airbar_finance.Store.World.{Env, M, ◌>>=◌, ◌>>◌, pure, ignore, fail_if}
use airbar_finance.Store.Sql.{with_tx, now_utc}
use airbar_finance.Accounts.Credit.{ensure_credit_account, get_promo_balance}
use airbar_finance.Audit.{emit_credit_granted, emit_credit_reversed}
use airbar_finance.Ledger.Account.{airbar_promo_expense, user_promo_credit_account}
use airbar_finance.Ledger.Post.{PostJournalInput, post_journal}
use airbar_finance.Credit.Repository.{
  is_active, create_grant, get_grant_by_id, mark_reversed, list_grants_by_user_id,
}

pub record GrantCreditInput : Type 0 where
  pub user_id : Text
  pub amount : ℤ
  pub reason : Text
  pub campaign_ref : Text
  pub expires_at : Option ℕ
  pub granted_by : Text
  pub idempotency_key : Text

abbrev pub new_grant : GrantCreditInput → Grant
new_grant input = record {
  id = [];
  user_id = input.user_id;
  amount_rials = input.amount;
  reason = input.reason;
  campaign_ref = input.campaign_ref;
  expires_at = input.expires_at;
  status = active;
  granted_by = input.granted_by;
  idempotency_key = input.idempotency_key;
  reversed_at = none;
  reverse_reason = [];
  reversed_by = [];
  created_at = 0;
}

abbrev pub grant_input : GrantCreditInput → Grant → PostJournalInput
grant_input input grant = record {
  ref_type = promo_credit_grant;
  ref_id = grant.id;
  description = text "Promo credit grant: " ++ input.reason;
  lines =
      record { account_code = airbar_promo_expense; debit = input.amount; credit = pos 0 }
      ∷ record {
        account_code = user_promo_credit_account input.user_id;
        debit = pos 0;
        credit = input.amount;
      }
      ∷ [];
}

-- The transaction's body of GrantCredit.
unfoldable pub grant_in_tx : Env → GrantCreditInput → M Grant
grant_in_tx env input = do
  ensure_credit_account env input.user_id
  grant ← create_grant env (new_grant input)
  post_journal env (grant_input input grant)
  ignore (emit_credit_granted env grant.id grant.user_id grant.amount_rials (text "ACTIVE"))
  pure grant

unfoldable pub grant_credit : Env → GrantCreditInput → M Grant
grant_credit env input =
    fail_if
      (is_empty input.user_id
        || leb_ℤ input.amount (pos 0)
        || is_empty input.reason
        || is_empty input.granted_by
        || is_empty input.idempotency_key)
      (credit invalid_input)
    >> with_tx env (grant_in_tx env input)

pub record ReverseCreditInput : Type 0 where
  pub grant_id : Text
  pub reverse_reason : Text
  pub reversed_by : Text

abbrev pub reverse_input : ReverseCreditInput → Grant → PostJournalInput
reverse_input input grant = record {
  ref_type = promo_credit_reverse;
  ref_id = grant.id ++ text ":reverse";
  description = text "Promo credit reverse: " ++ input.reverse_reason;
  lines =
      record {
        account_code = user_promo_credit_account grant.user_id;
        debit = grant.amount_rials;
        credit = pos 0;
      }
      ∷ record { account_code = airbar_promo_expense; debit = pos 0; credit = grant.amount_rials }
      ∷ [];
}

-- The transaction's body of ReverseCreditGrant.
unfoldable pub reverse_in_tx : Env → ReverseCreditInput → Grant → ℕ → M Grant
reverse_in_tx env input grant now = do
  mark_reversed env grant.id now input.reverse_reason input.reversed_by
  post_journal env (reverse_input input grant)
  ignore (emit_credit_reversed env grant.id grant.user_id grant.amount_rials input.reverse_reason)
  pure (record grant {
    status = reversed;
    reversed_at = some now;
    reverse_reason = input.reverse_reason;
    reversed_by = input.reversed_by;
  })

-- A status is one of two, so that the test for a third one has no branch.
unfoldable pub reverse_credit_grant : Env → ReverseCreditInput → M Grant
reverse_credit_grant env input = do
  fail_if (is_empty input.grant_id || is_empty input.reverse_reason || is_empty input.reversed_by)
      (credit invalid_input)
  grant ← get_grant_by_id env input.grant_id
  fail_if (not (is_active grant.status)) (credit already_reversed)
  now ← now_utc env
  with_tx env (reverse_in_tx env input grant now)

pub record ListGrantsResult : Type 0 where
  pub balance : ℤ
  pub grants : List Grant

unfoldable pub list_grants : Env → Text → ℤ → ℤ → M ListGrantsResult
list_grants env user_id limit offset = do
  fail_if (is_empty user_id) (credit invalid_input)
  grants ← list_grants_by_user_id env user_id limit offset
  balance ← get_promo_balance env user_id
  pure (record { balance = balance; grants = grants })
