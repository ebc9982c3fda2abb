-- ===== src/System/Settled.antt =====
-- Requests and a confirmed payment order.
use airbar_finance.Prelude.Text.{Text}
use airbar_finance.Store.World.{Db, Env}
use airbar_finance.Store.Sql.{idle}
use airbar_finance.Payment.Settled.{IsSettled}
use airbar_finance.Payment.Settled.Access.{IsSettled-Ignores}
use airbar_finance.Payment.Settled.Calls.{
  create_payment_order-Keeps, create_wallet_topup_order-Keeps, verify_payment_order-Keeps,
  verify_wallet_topup_order-Keeps, handle_callback-Keeps,
}
use airbar_finance.System.{Call, perform}
use airbar_finance.System.Balanced.{Payments, perform-Keeps}

-- The tables that requests can make of `old`, one after another.
pub data Later (old : Db) : Db → Type 0 where
  at_once : Later old old
  then_request :
      (env : Env) (call : Call) (d : Db)
      → Later old d
      → Later old (perform env call (idle d)).1.committed

IsSettled-Payments : (id : Text) → Payments (IsSettled id)
IsSettled-Payments id = record {
  order_creation = create_payment_order-Keeps id;
  topup_creation = create_wallet_topup_order-Keeps id;
  order_verification = verify_payment_order-Keeps id;
  topup_verification = verify_wallet_topup_order-Keeps id;
  callback_handling = handle_callback-Keeps id;
}

-- Where the order with some id is confirmed, it is there and confirmed after whatever further
-- requests, callbacks that report a failed payment included, whatever the provider answers and
-- whichever database calls fail.
pub confirmed_order_stays :
    (id : Text) (old d : Db) → Later old d → IsSettled id old → IsSettled id d
confirmed_order_stays id old _ at_once h = h
confirmed_order_stays id old _ (then_request env call d l) h =
    let kept = confirmed_order_stays id old d l h in
    ((perform-Keeps (IsSettled-Ignores id) (IsSettled-Payments id) env call).at (idle d)
      (record { of_committed = kept; of_view = tt })).of_committed
