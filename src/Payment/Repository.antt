-- ===== src/Payment/Repository.antt =====
-- internal/infrastructure/postgres/repository/payment.go, and GetPaymentOrder. An empty text is a NULL
-- in the columns that may be NULL. That `id` is no UUID is a failure of the call.
use airbar_finance.Prelude.{
  ℕ, Bool, true, false, ◌&&◌, not, Option, none, some, [], ◌∷◌, ◌++◌, map, find, any, if◌then◌else◌,
}
use airbar_finance.Prelude.Int.{pos, leb_ℤ, ltb_ℤ}
use airbar_finance.Prelude.Text.{Text, text, same, is_empty}
use airbar_finance.Domain.Errors.{
  check_violation, unique_violation, payment, not_found, invalid_input,
}
use airbar_finance.Domain.Payment.{
  Order, Purpose, shipment, wallet_topup, Status, pending, confirmed, failed,
}
use airbar_finance.Store.World.{Env, M, Result, ok, err, ◌>>=◌, ◌>>◌, pure, lift, fail_if}
use airbar_finance.Store.Sql.{Statement, done, violates, on_querier, new_uuid, now_utc}

unfoldable pub status_text : Status → Text
status_text pending = text "PENDING"
status_text confirmed = text "CONFIRMED"
status_text failed = text "FAILED"

unfoldable pub purpose_text : Purpose → Text
purpose_text shipment = text "SHIPMENT"
purpose_text wallet_topup = text "WALLET_TOPUP"

unfoldable pub is_confirmed : Status → Bool
is_confirmed confirmed = true
is_confirmed _ = false

-- INSERT INTO payment_orders, under PRIMARY KEY (id) and CHECK (amount > 0); an agreed price that is
-- not positive is NULL.
unfoldable pub insert_order : Order → Statement (Unit {0})
insert_order row d =
    if leb_ℤ row.amount (pos 0)
    then violates check_violation
    else if any (λ r. same r.id row.id) d.orders
    then violates unique_violation
    else done tt (record d {
      orders =
          d.orders
          ++ (record row {
            agreed_price = if ltb_ℤ (pos 0) row.agreed_price then row.agreed_price else pos 0;
            verified_at = none;
          }
              ∷ []);
    })

-- `Create`; the result is the order with its id and times.
unfoldable pub create : Env → Order → M Order
create env order = do
  id ← new_uuid env
  now ← now_utc env
  on_querier env (insert_order (record order { id = id; created_at = now; updated_at = now }))
  pure (record order { id = id; created_at = now; updated_at = now })

abbrev pub or_not_found : Option Order → Result Order
or_not_found none = err (payment not_found)
or_not_found (some order) = ok order

unfoldable pub select_order : Text → Statement (Option Order)
select_order id d = done (find (λ r. same r.id id) d.orders) d

unfoldable pub get_by_id : Env → Text → M Order
get_by_id env id = do row ← on_querier env (select_order id); lift (or_not_found row)

-- WHERE authority = $1; no NULL is equal to it.
unfoldable pub select_by_authority : Text → Statement (Option Order)
select_by_authority authority d =
    done (find (λ r. not (is_empty r.authority) && same r.authority authority) d.orders) d

unfoldable pub get_by_authority : Env → Text → M Order
get_by_authority env authority = do
  row ← on_querier env (select_by_authority authority)
  lift (or_not_found row)

-- UPDATE payment_orders SET … WHERE id = $1: the columns that it sets, on one row.
unfoldable pub set_columns : Order → ℕ → Order → Order
set_columns order now row =
    if same row.id order.id
    then record row {
      status = order.status;
      authority = order.authority;
      redirect_url = order.redirect_url;
      verified_at = order.verified_at;
      updated_at = now;
    }
    else row

-- The result says whether a row was updated.
unfoldable pub update_order : Order → ℕ → Statement Bool
update_order order now d =
    if any (λ r. same r.id order.id) d.orders
    then done true (record d { orders = map (set_columns order now) d.orders })
    else done false d

unfoldable pub update : Env → Order → M (Unit {0})
update env order = do
  now ← now_utc env
  updated ← on_querier env (update_order order now)
  lift (if updated then ok tt else err (payment not_found))

-- `Execute` of GetPaymentOrder.
unfoldable pub get_payment_order : Env → Text → M Order
get_payment_order env id = fail_if (is_empty id) (payment invalid_input) >> get_by_id env id
