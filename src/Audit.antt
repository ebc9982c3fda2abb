-- ===== src/Audit.antt =====
-- internal/usecase/audit/emitter.go and internal/infrastructure/postgres/repository/finance_event.go.
-- The emitter and its repository are set, as in cmd/server/main.go.
use airbar_finance.Prelude.{List, [], ◌∷◌, ◌++◌}
use airbar_finance.Prelude.Int.{ℤ}
use airbar_finance.Prelude.Text.{Text, text}
use airbar_finance.Domain.Audit.{
  aggregate_escrow, aggregate_payment_order, aggregate_withdrawal, aggregate_credit_grant,
  EventType, escrow_created, escrow_status_changed, payment_created, payment_status_changed,
  withdrawal_created, withdrawal_status_changed, credit_granted, credit_reversed, Payload, str, int,
  Event,
}
use airbar_finance.Store.World.{Db, Env, M, ◌>>=◌}
use airbar_finance.Store.Sql.{Statement, done, on_querier, new_uuid, now_utc}
use airbar_finance.Store.Keeps.{Keeps, Preserves, keeps_rules}

unfoldable pub insert_finance_event : Event → Statement (Unit {0})
insert_finance_event event d =
    done tt (record d { finance_events = d.finance_events ++ (event ∷ []) })

unfoldable pub emit : Env → Text → Text → EventType → Payload → M (Unit {0})
emit env aggregate_type aggregate_id event_type payload = do
  id ← new_uuid env
  created_at ← now_utc env
  on_querier env (
      insert_finance_event (record {
        id = id;
        aggregate_type = aggregate_type;
        aggregate_id = aggregate_id;
        event_type = event_type;
        payload = payload;
        created_at = created_at;
      }))

unfoldable pub emit_escrow_created : Env → Text → Text → Text → M (Unit {0})
emit_escrow_created env escrow_id shipment_id status =
    emit env aggregate_escrow escrow_id escrow_created
      ((text "shipment_id", str shipment_id) ∷ (text "status", str status) ∷ [])

unfoldable pub emit_escrow_status_changed : Env → Text → Text → Text → M (Unit {0})
emit_escrow_status_changed env escrow_id shipment_id status =
    emit env aggregate_escrow escrow_id escrow_status_changed
      ((text "shipment_id", str shipment_id) ∷ (text "status", str status) ∷ [])

unfoldable pub emit_payment_created : Env → Text → Text → Text → M (Unit {0})
emit_payment_created env order_id purpose status =
    emit env aggregate_payment_order order_id payment_created
      ((text "purpose", str purpose) ∷ (text "status", str status) ∷ [])

unfoldable pub emit_payment_status_changed : Env → Text → Text → M (Unit {0})
emit_payment_status_changed env order_id status =
    emit env aggregate_payment_order order_id payment_status_changed
      ((text "status", str status) ∷ [])

unfoldable pub emit_withdrawal_created : Env → Text → Text → Text → M (Unit {0})
emit_withdrawal_created env withdrawal_id user_id status =
    emit env aggregate_withdrawal withdrawal_id withdrawal_created
      ((text "user_id", str user_id) ∷ (text "status", str status) ∷ [])

unfoldable pub emit_withdrawal_status_changed : Env → Text → Text → M (Unit {0})
emit_withdrawal_status_changed env withdrawal_id status =
    emit env aggregate_withdrawal withdrawal_id withdrawal_status_changed
      ((text "status", str status) ∷ [])

unfoldable pub emit_credit_granted : Env → Text → Text → ℤ → Text → M (Unit {0})
emit_credit_granted env grant_id user_id amount status =
    emit env aggregate_credit_grant grant_id credit_granted (
      (text "user_id", str user_id)
      ∷ (text "amount", int amount)
      ∷ (text "status", str status)
      ∷ [])

unfoldable pub emit_credit_reversed : Env → Text → Text → ℤ → Text → M (Unit {0})
emit_credit_reversed env grant_id user_id amount reason =
    emit env aggregate_credit_grant grant_id credit_reversed (
      (text "user_id", str user_id)
      ∷ (text "amount", int amount)
      ∷ (text "reason", str reason)
      ∷ [])

-- An event keeps every property that does not look at the table of events.
module _ {P : Db → Type 0}
    (ignores : (rows : List Event) (d : Db) → P d → P (record d { finance_events = rows })) where
  insert_finance_event-Preserves : (event : Event) → Preserves P (insert_finance_event event)
  unfolding insert_finance_event
  insert_finance_event-Preserves event = record { at = λ d h. ignores _ d h }

  pub emit-Keeps :
      (env : Env) (aggregate_type aggregate_id : Text) (event_type : EventType) (payload : Payload)
      → Keeps P (emit env aggregate_type aggregate_id event_type payload)
  unfolding emit
  emit-Keeps env aggregate_type aggregate_id event_type payload =
      search (keeps_rules, insert_finance_event-Preserves) depth 8
