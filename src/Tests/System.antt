-- ===== src/Tests/System.antt =====
-- The theorems on requests, grants and reconciliation at concrete inputs.
use airbar_finance.Prelude.{◌≡◌, ◌↔◌, refl, false, none, some, [], ◌∷◌, arith}
use airbar_finance.Prelude.Int.{pos, ◌+ℤ◌}
use airbar_finance.Prelude.Text.{text}
use airbar_finance.Domain.Errors.{escrow, not_found}
use airbar_finance.Domain.Reconciliation.{Run, passed}
use airbar_finance.Store.World.{Db, ok, err, ◌>>=◌}
use airbar_finance.Store.Sql.{done, after, idle, with_tx, on_querier, on_pool, new_uuid, now_utc}
use airbar_finance.Ledger.Repository.Sums.{IsBalanced}
use airbar_finance.Reconciliation.{run_reconciliation}
use airbar_finance.Reconciliation.Passes.{reconciliation_verdict}
use airbar_finance.Escrow.Release.{release, release_escrow}
use airbar_finance.Escrow.Repository.{get_by_shipment_id, select_escrow}
use airbar_finance.Domain.Credit.{active}
use airbar_finance.Credit.Repository.{update_reversed}
use airbar_finance.Credit.Repository.Once.{update_reversed_once}
use airbar_finance.System.{
  Call, perform, no_rows, migrated, request, grant_credit_call, release_escrow_call,
  create_escrow_call,
}
use airbar_finance.Ledger.Repository.Atomic.{Unchanged}
use airbar_finance.System.Atomic.{failed_call-Unchanged}
use airbar_finance.System.Balanced.{Reachable-IsBalanced, reconciliation_passes}
use airbar_finance.Domain.Account.{Account}
use airbar_finance.Ledger.Account.{user_wallet_account}
use airbar_finance.Accounts.Wallet.{ensure_account, upsert_wallet}
use airbar_finance.Accounts.{upsert}
use airbar_finance.Accounts.Queries.{select_by_user_id}
use airbar_finance.Accounts.Lookup.{ensured_account_found}
use airbar_finance.System.Unlocked.{IsUnlocked, Reachable-IsUnlocked}
use airbar_finance.Tests.{sound_env}

abbrev first_grant : Call
first_grant = grant_credit_call (record {
  user_id = text "ali";
  amount = pos 500;
  reason = text "welcome";
  campaign_ref = [];
  expires_at = none;
  granted_by = text "ops";
  idempotency_key = text "k1";
})

abbrev first_escrow : Call
first_escrow = create_escrow_call (record {
  shipment_id = text "s1";
  carrier_user_id = text "bahar";
  payer_user_id = text "ali";
  amount = pos 500;
})

abbrev granted : Db
granted = (perform sound_env first_grant (idle no_rows)).1.committed

Reachable-IsBalanced_example :
    IsBalanced (perform sound_env first_escrow (idle granted)).1.committed
Reachable-IsBalanced_example =
    Reachable-IsBalanced _
      (request sound_env first_escrow granted (request sound_env first_grant no_rows migrated))

Reachable-IsUnlocked_example :
    IsUnlocked (perform sound_env first_escrow (idle granted)).1.committed
Reachable-IsUnlocked_example =
    Reachable-IsUnlocked _
      (request sound_env first_escrow granted (request sound_env first_grant no_rows migrated))

reconciliation_passes_example :
    (run : Run) × (((run_reconciliation sound_env (idle no_rows)).0 ≡ ok run)
      × (run.status ≡ passed))
reconciliation_passes_example =
    reconciliation_passes sound_env no_rows migrated refl refl (omega arith, omega arith)
      (omega arith, omega arith)

abbrev one_entry : Db
one_entry = record no_rows {
  entries =
      record {
        id = [];
        journal_id = [];
        account_code = text "X";
        debit = pos 5;
        credit = pos 0;
        created_at = 0;
      }
      ∷ [];
}

reconciliation_verdict_example :
    (run : Run) × (((run_reconciliation sound_env (idle one_entry)).0 ≡ ok run)
      × ((run.status ≡ passed) ↔ IsBalanced one_entry))
unfolding ◌+ℤ◌
reconciliation_verdict_example =
    reconciliation_verdict sound_env one_entry refl refl (omega arith, omega arith)
      (omega arith, omega arith)

-- The release of a shipment that has no escrow.
abbrev unknown_release : Call
unknown_release = release_escrow_call (text "s9")

unknown_release_fails :
    (perform sound_env unknown_release (idle no_rows)).0 ≡ err (escrow not_found)
unfolding perform release_escrow release ◌>>=◌ with_tx get_by_shipment_id on_querier select_escrow
unknown_release_fails = refl

failed_call-Unchanged_example :
    Unchanged no_rows (perform sound_env unknown_release (idle no_rows)).1.committed
failed_call-Unchanged_example =
    failed_call-Unchanged sound_env unknown_release no_rows (escrow not_found) tt
      unknown_release_fails

abbrev one_grant : Db
one_grant = record no_rows {
  grants =
      record {
        id = text "g1";
        user_id = text "ali";
        amount_rials = pos 500;
        reason = text "welcome";
        campaign_ref = [];
        expires_at = none;
        status = active;
        granted_by = text "ops";
        idempotency_key = text "k1";
        reversed_at = none;
        reverse_reason = [];
        reversed_by = [];
        created_at = 0;
      }
      ∷ [];
}

update_reversed_once_example :
    update_reversed
      (text "g1")
      8
      (text "again")
      (text "ops")
      (after (update_reversed (text "g1") 7 (text "abuse") (text "ops") one_grant) one_grant)
    ≡ done false
        (after (update_reversed (text "g1") 7 (text "abuse") (text "ops") one_grant) one_grant)
update_reversed_once_example =
    update_reversed_once (text "g1") 7 8 (text "abuse") (text "ops") (text "again") (text "ops")
      one_grant

abbrev account_of_ali : Account
account_of_ali = record {
  id = text "A";
  user_id = text "ali";
  currency = text "IRT";
  account_code = user_wallet_account (text "ali");
  created_at = 0;
}

ensured_account_found_example :
    select_by_user_id
      (text "ali")
      (ensure_account sound_env (text "ali") (idle no_rows)).1.committed
    ≡ done (some account_of_ali) (ensure_account sound_env (text "ali") (idle no_rows)).1.committed
unfolding ensure_account ◌>>=◌ new_uuid now_utc on_pool upsert_wallet upsert
ensured_account_found_example =
    ensured_account_found sound_env (text "ali") (idle no_rows) account_of_ali refl
