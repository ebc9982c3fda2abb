-- ===== src/Credit/Repository.antt =====
-- internal/infrastructure/postgres/repository/credit.go: the grants. Every query runs on the pool,
-- also within a transaction. That `id` is no UUID is a failure of the call.
pub mod Once
use airbar_finance.Prelude.{
  ℕ, Bool, true, false, ◌&&◌, Option, none, some, List, [], ◌∷◌, ◌++◌, map, find, any, take, drop,
  leb, if◌then◌else◌,
}
use airbar_finance.Prelude.Int.{ℤ, pos, pos_part, leb_ℤ, ltb_ℤ}
use airbar_finance.Prelude.Text.{Text, same, is_empty}
use airbar_finance.Domain.Errors.{
  Error, unique_violation, check_violation, database, credit, not_found, duplicate_grant,
  already_reversed,
}
use airbar_finance.Domain.Credit.{Grant, GrantStatus, active, reversed}
use airbar_finance.Store.World.{Env, M, Result, ok, err, ◌>>=◌, ◌>>◌, pure, fail, lift, map_error}
use airbar_finance.Store.Sql.{Statement, done, violates, on_pool, new_uuid, now_utc}

unfoldable pub is_active : GrantStatus → Bool
is_active active = true
is_active reversed = false

-- The row that INSERT INTO credit_grants makes of the columns that it writes: those of a reversal are
-- NULL, which is read as empty.
unfoldable pub inserted_row : Grant → Grant
inserted_row grant = record grant { reversed_at = none; reverse_reason = []; reversed_by = [] }

-- INSERT INTO credit_grants, under CHECK (amount_rials > 0) and UNIQUE (idempotency_key).
unfoldable pub insert_grant : Grant → Statement (Unit {0})
insert_grant row d =
    if leb_ℤ row.amount_rials (pos 0)
    then violates check_violation
    else if any (λ r. same r.idempotency_key row.idempotency_key) d.grants
    then violates unique_violation
    else done tt (record d { grants = d.grants ++ (inserted_row row ∷ []) })

unfoldable pub duplicate_grant_error : Error → Error
duplicate_grant_error (database unique_violation) = credit duplicate_grant
duplicate_grant_error e = e

-- `CreateGrant`; the status is set by the caller, and an empty id is filled in.
unfoldable pub create_grant : Env → Grant → M Grant
create_grant env grant = do
  fresh ← new_uuid env
  now ← now_utc env
  let id = if is_empty grant.id then fresh else grant.id
  map_error duplicate_grant_error
      (on_pool env (insert_grant (record grant { id = id; created_at = now })))
  pure (record grant { id = id; created_at = now })

unfoldable pub select_grant : Text → Statement (Option Grant)
select_grant id d = done (find (λ r. same r.id id) d.grants) d

abbrev pub or_not_found : Option Grant → Result Grant
or_not_found none = err (credit not_found)
or_not_found (some g) = ok g

unfoldable pub get_grant_by_id : Env → Text → M Grant
get_grant_by_id env id = do row ← on_pool env (select_grant id); lift (or_not_found row)

-- UPDATE credit_grants SET … WHERE id = $1 AND status = 'ACTIVE'
unfoldable pub is_open : Text → Grant → Bool
unfolding is_active
is_open id row = same row.id id && is_active row.status

unfoldable pub set_reversed : Text → ℕ → Text → Text → Grant → Grant
set_reversed id reversed_at reverse_reason reversed_by row =
    if is_open id row
    then record row {
      status = reversed;
      reversed_at = some reversed_at;
      reverse_reason = reverse_reason;
      reversed_by = reversed_by;
    }
    else row

unfoldable pub update_reversed : Text → ℕ → Text → Text → Statement Bool
update_reversed id reversed_at reverse_reason reversed_by d =
    if any (is_open id) d.grants
    then done true (record d {
      grants = map (set_reversed id reversed_at reverse_reason reversed_by) d.grants;
    })
    else done false d

-- Why no row was updated.
unfoldable pub not_reversed : Env → Text → M (Unit {0})
not_reversed env id = do
  grant ← get_grant_by_id env id
  fail (if is_active grant.status then credit not_found else credit already_reversed)

unfoldable pub mark_reversed : Env → Text → ℕ → Text → Text → M (Unit {0})
mark_reversed env id reversed_at reverse_reason reversed_by = do
  updated ← on_pool env (update_reversed id reversed_at reverse_reason reversed_by)
  elim updated [ true ↦ pure tt | false ↦ not_reversed env id ]

-- The newest grant first; grants of one time stay in the table's order.
unfoldable pub place : Grant → List Grant → List Grant
place row [] = row ∷ []
place row (other ∷ rows) =
    let rest = place row rows in
    if leb other.created_at row.created_at then row ∷ other ∷ rows else other ∷ rest

-- WHERE user_id = $1 ORDER BY created_at DESC
unfoldable pub select_by_user : Text → List Grant → List Grant
unfolding place
select_by_user user_id [] = []
select_by_user user_id (row ∷ rows) =
    let rest = select_by_user user_id rows in
    if same row.user_id user_id then place row rest else rest

unfoldable pub select_page : Text → ℕ → ℕ → Statement (List Grant)
select_page user_id limit offset d =
    done (take limit (drop offset (select_by_user user_id d.grants))) d

-- `ListGrantsByUserID`, with its defaults: 50 grants, from the first.
unfoldable pub list_grants_by_user_id : Env → Text → ℤ → ℤ → M (List Grant)
list_grants_by_user_id env user_id limit offset = on_pool env (
    select_page user_id (if leb_ℤ limit (pos 0) then 50 else pos_part limit)
      (if ltb_ℤ offset (pos 0) then 0 else pos_part offset))
