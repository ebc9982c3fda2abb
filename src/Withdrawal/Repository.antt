-- ===== src/Withdrawal/Repository.antt =====
-- internal/infrastructure/postgres/repository/withdrawal.go, and ListWithdrawals. That `id` is no
-- UUID is a failure of the call.
use airbar_finance.Prelude.{
  ℕ, Bool, true, false, ◌&&◌, ◌||◌, Option, none, some, List, [], ◌∷◌, ◌++◌, map, find, any, leb,
  if◌then◌else◌,
}
use airbar_finance.Prelude.Int.{pos, leb_ℤ}
use airbar_finance.Prelude.Text.{Text, same, is_empty}
use airbar_finance.Domain.Errors.{check_violation, withdrawal, not_found, invalid_input}
use airbar_finance.Domain.Withdrawal.{Withdrawal}
use airbar_finance.Store.World.{Env, M, Result, ok, err, ◌>>=◌, ◌>>◌, pure, lift, fail_if}
use airbar_finance.Store.Sql.{Statement, done, violates, on_querier, new_uuid, now_utc}
use airbar_finance.Withdrawal.Status.{status_text}

-- The row that INSERT INTO withdrawals makes of the columns that it writes: the others are NULL,
-- which is read as empty.
unfoldable pub inserted_row : Withdrawal → Withdrawal
inserted_row row = record row {
  provider_ref = [];
  payout_channel = [];
  receipt_url = [];
  reject_reason = [];
  processed_at = none;
}

-- INSERT INTO withdrawals, under CHECK (amount > 0).
unfoldable pub insert_withdrawal : Withdrawal → Statement (Unit {0})
insert_withdrawal row d =
    if leb_ℤ row.amount (pos 0)
    then violates check_violation
    else done tt (record d { withdrawals = d.withdrawals ++ (inserted_row row ∷ []) })

unfoldable pub create : Env → Withdrawal → M Withdrawal
create env row = do
  id ← new_uuid env
  now ← now_utc env
  on_querier env (insert_withdrawal (record row { id = id; created_at = now; updated_at = now }))
  pure (record row { id = id; created_at = now; updated_at = now })

unfoldable pub select_withdrawal : Text → Statement (Option Withdrawal)
select_withdrawal id d = done (find (λ r. same r.id id) d.withdrawals) d

abbrev pub or_not_found : Option Withdrawal → Result Withdrawal
or_not_found none = err (withdrawal not_found)
or_not_found (some r) = ok r

unfoldable pub get_by_id : Env → Text → M Withdrawal
get_by_id env id = do row ← on_querier env (select_withdrawal id); lift (or_not_found row)

-- The newest row first; rows of one time stay in the table's order.
unfoldable pub place : Withdrawal → List Withdrawal → List Withdrawal
place row [] = row ∷ []
place row (other ∷ rows) =
    let rest = place row rows in
    if leb other.created_at row.created_at then row ∷ other ∷ rows else other ∷ rest

-- WHERE user_id = $1 AND status = $2 ORDER BY created_at DESC; an empty status selects all.
unfoldable pub select_by_user : Text → Text → List Withdrawal → List Withdrawal
unfolding place
select_by_user user_id status [] = []
select_by_user user_id status (row ∷ rows) =
    let rest = select_by_user user_id status rows in
    if same row.user_id user_id && (is_empty status || same (status_text row.status) status)
    then place row rest
    else rest

unfoldable pub select_withdrawals : Text → Text → Statement (List Withdrawal)
select_withdrawals user_id status d = done (select_by_user user_id status d.withdrawals) d

unfoldable pub list_withdrawals : Env → Text → Text → M (List Withdrawal)
list_withdrawals env user_id status =
    fail_if (is_empty user_id) (withdrawal invalid_input)
    >> on_querier env (select_withdrawals user_id status)

-- UPDATE withdrawals SET … WHERE id = $1: the columns that it sets, on one row.
unfoldable pub set_columns : Withdrawal → ℕ → Withdrawal → Withdrawal
set_columns w now row =
    if same row.id w.id
    then record row {
      status = w.status;
      provider_ref = w.provider_ref;
      payout_channel = w.payout_channel;
      receipt_url = w.receipt_url;
      reject_reason = w.reject_reason;
      processed_at = w.processed_at;
      updated_at = now;
    }
    else row

-- The result says whether a row was updated.
unfoldable pub update_withdrawal : Withdrawal → ℕ → Statement Bool
update_withdrawal w now d =
    if any (λ r. same r.id w.id) d.withdrawals
    then done true (record d { withdrawals = map (set_columns w now) d.withdrawals })
    else done false d

unfoldable pub update : Env → Withdrawal → M (Unit {0})
update env w = do
  now ← now_utc env
  updated ← on_querier env (update_withdrawal w now)
  lift (if updated then ok tt else err (withdrawal not_found))
