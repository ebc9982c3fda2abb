-- ===== src/Escrow/Repository.antt =====
-- internal/infrastructure/postgres/repository/escrow.go
pub mod Keeps
pub mod RoundTrip
use airbar_finance.Prelude.{
  ℕ, Bool, true, false, Option, none, some, List, [], ◌∷◌, ◌++◌, map, find, any, if◌then◌else◌,
}
use airbar_finance.Prelude.Int.{ℤ, pos, leb_ℤ, ltb_ℤ}
use airbar_finance.Prelude.Text.{Text, same}
use airbar_finance.Domain.Errors.{
  Error, DatabaseError, unique_violation, check_violation, database, escrow, not_found,
  duplicate_shipment,
}
use airbar_finance.Domain.Escrow.{Escrow, unset}
use airbar_finance.Store.World.{Db, Env, M, Result, ok, err, ◌>>=◌, ◌>>◌, pure, lift, map_error}
use airbar_finance.Store.Sql.{Statement, done, violates, on_querier, new_uuid, now_utc}

-- The row that INSERT INTO escrows makes of the columns that it writes: the others are NULL, which
-- is read as empty, or have the table's defaults.
unfoldable pub inserted_row : Escrow → Escrow
inserted_row e = record e {
  payment_order_id = [];
  funding_source = unset;
  promo_credit_funded = pos 0;
  funded_at = none;
  released_at = none;
  refunded_at = none;
}

-- INSERT INTO escrows, under UNIQUE (shipment_id) and CHECK (amount > 0).
unfoldable pub insert_escrow : Escrow → Statement (Unit {0})
insert_escrow row d =
    if leb_ℤ row.amount (pos 0)
    then violates check_violation
    else if any (λ r. same r.shipment_id row.shipment_id) d.escrows
    then violates unique_violation
    else done tt (record d { escrows = d.escrows ++ (inserted_row row ∷ []) })

unfoldable pub duplicate_escrow_error : Error → Error
duplicate_escrow_error (database unique_violation) = escrow duplicate_shipment
duplicate_escrow_error e = e

-- `Create`; the result is the row with its id and times.
unfoldable pub create : Env → Escrow → M Escrow
create env e = do
  id ← new_uuid env
  now ← now_utc env
  map_error duplicate_escrow_error
      (on_querier env (insert_escrow (record e { id = id; created_at = now; updated_at = now })))
  pure (record e { id = id; created_at = now; updated_at = now })

unfoldable pub select_escrow : Text → Statement (Option Escrow)
select_escrow shipment_id d = done (find (λ r. same r.shipment_id shipment_id) d.escrows) d

abbrev pub or_not_found : Option Escrow → Result Escrow
or_not_found none = err (escrow not_found)
or_not_found (some e) = ok e

unfoldable pub get_by_shipment_id : Env → Text → M Escrow
get_by_shipment_id env shipment_id = do
  row ← on_querier env (select_escrow shipment_id)
  lift (or_not_found row)

-- UPDATE escrows SET … WHERE id = $1: the columns that it sets, on one row.
unfoldable pub set_columns : Escrow → ℕ → Escrow → Escrow
set_columns e now row =
    if same row.id e.id
    then record row {
      status = e.status;
      payment_order_id = e.payment_order_id;
      funding_source = e.funding_source;
      promo_credit_funded = e.promo_credit_funded;
      funded_at = e.funded_at;
      released_at = e.released_at;
      refunded_at = e.refunded_at;
      updated_at = now;
    }
    else row

-- The result says whether a row was updated; CHECK (promo_credit_funded >= 0).
unfoldable pub update_escrow : Escrow → ℕ → Statement Bool
update_escrow e now d =
    if any (λ r. same r.id e.id) d.escrows
    then if ltb_ℤ e.promo_credit_funded (pos 0)
      then violates check_violation
      else done true (record d { escrows = map (set_columns e now) d.escrows })
    else done false d

unfoldable pub update : Env → Escrow → M (Unit {0})
update env e = do
  now ← now_utc env
  updated ← on_querier env (update_escrow e now)
  lift (if updated then ok tt else err (escrow not_found))
