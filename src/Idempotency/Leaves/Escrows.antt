-- ===== src/Idempotency/Leaves/Escrows.antt =====
-- The handlers of escrows that open no transaction, and the interceptor's records: CreateEscrow,
-- MarkDelivered and FreezeEscrow of internal/delivery/grpc/handlers/escrow.go.
use airbar_finance.Prelude.{ℕ, refl, inl, inr, Bool-cases, any}
use airbar_finance.Prelude.Int.{pos, leb_ℤ, ltb_ℤ}
use airbar_finance.Prelude.Text.{Text, same}
use airbar_finance.Domain.Audit.{Event, EventType, Payload}
use airbar_finance.Domain.Escrow.{Escrow}
use airbar_finance.Store.World.{Env}
use airbar_finance.Audit.{
  insert_finance_event, emit, emit_escrow_created, emit_escrow_status_changed,
}
use airbar_finance.Escrow.Repository.{
  insert_escrow, create, select_escrow, get_by_shipment_id, update_escrow, update,
}
use airbar_finance.Escrow.Lifecycle.{
  emit_escrow_status, CreateEscrowInput, create_escrow, mark_delivered, freeze_escrow,
}
use airbar_finance.Handlers.Escrow.{
  respond, CreateEscrowRequest, handle_create_escrow, handle_mark_delivered, handle_freeze_escrow,
}
use airbar_finance.Idempotency.Once.{LeavesKeys}
use airbar_finance.Idempotency.Leaves.{Avoids, leaves_rules}

insert_finance_event-Avoids : (event : Event) → Avoids (insert_finance_event event)
unfolding insert_finance_event
insert_finance_event-Avoids event = record { at = λ d. refl }

insert_escrow-Avoids : (e : Escrow) → Avoids (insert_escrow e)
unfolding insert_escrow
insert_escrow-Avoids e = record {
  at = λ d. elim (Bool-cases (leb_ℤ e.amount (pos 0))) [
    | inl bad ↦ rw bad refl
    | inr good ↦ elim (Bool-cases (any (λ r. same r.shipment_id e.shipment_id) d.escrows)) [
      | inl taken ↦ rw (good, taken) refl
      | inr free ↦ rw (good, free) refl
    ]
  ];
}

select_escrow-Avoids : (s : Text) → Avoids (select_escrow s)
unfolding select_escrow
select_escrow-Avoids s = record { at = λ d. refl }

update_escrow-Avoids : (e : Escrow) (now : ℕ) → Avoids (update_escrow e now)
unfolding update_escrow
update_escrow-Avoids e now = record {
  at = λ d. elim (Bool-cases (any (λ r. same r.id e.id) d.escrows)) [
    | inl known ↦ elim (Bool-cases (ltb_ℤ e.promo_credit_funded (pos 0))) [
      | inl bad ↦ rw (known, bad) refl
      | inr good ↦ rw (known, good) refl
    ]
    | inr missing ↦ rw missing refl
  ];
}

ruleset escrow_avoids = (
  leaves_rules, insert_finance_event-Avoids, insert_escrow-Avoids, select_escrow-Avoids,
  update_escrow-Avoids,
)

module _ (env : Env) where
  emit-LeavesKeys :
      (t id : Text) (event_type : EventType) (payload : Payload)
      → LeavesKeys (emit env t id event_type payload)
  unfolding emit
  emit-LeavesKeys t id event_type payload = search escrow_avoids depth 10

  create-LeavesKeys : (e : Escrow) → LeavesKeys (create env e)
  unfolding create
  create-LeavesKeys e = search escrow_avoids depth 10

  get-LeavesKeys : (s : Text) → LeavesKeys (get_by_shipment_id env s)
  unfolding get_by_shipment_id
  get-LeavesKeys s = search escrow_avoids depth 10

  update-LeavesKeys : (e : Escrow) → LeavesKeys (update env e)
  unfolding update
  update-LeavesKeys e = search escrow_avoids depth 10

ruleset escrow_leaves =
    (leaves_rules, emit-LeavesKeys, create-LeavesKeys, get-LeavesKeys, update-LeavesKeys)

module _ (env : Env) where
  create_escrow-LeavesKeys : (input : CreateEscrowInput) → LeavesKeys (create_escrow env input)
  unfolding create_escrow emit_escrow_created
  create_escrow-LeavesKeys input = search escrow_leaves depth 12

  emit_status-LeavesKeys : (e : Escrow) → LeavesKeys (emit_escrow_status env e)
  unfolding emit_escrow_status emit_escrow_status_changed
  emit_status-LeavesKeys e = search escrow_leaves depth 12

  mark_delivered-LeavesKeys : (s : Text) → LeavesKeys (mark_delivered env s)
  unfolding mark_delivered
  mark_delivered-LeavesKeys s = search (escrow_leaves, emit_status-LeavesKeys) depth 12

  freeze_escrow-LeavesKeys : (s : Text) → LeavesKeys (freeze_escrow env s)
  unfolding freeze_escrow
  freeze_escrow-LeavesKeys s = search (escrow_leaves, emit_status-LeavesKeys) depth 12

  pub handle_create_escrow-LeavesKeys :
      (req : CreateEscrowRequest) → LeavesKeys (handle_create_escrow env req)
  unfolding handle_create_escrow respond
  handle_create_escrow-LeavesKeys req = search (escrow_leaves, create_escrow-LeavesKeys) depth 12

  handle_mark_delivered-LeavesKeys : (s : Text) → LeavesKeys (handle_mark_delivered env s)
  unfolding handle_mark_delivered respond
  handle_mark_delivered-LeavesKeys s = search (escrow_leaves, mark_delivered-LeavesKeys) depth 12

  handle_freeze_escrow-LeavesKeys : (s : Text) → LeavesKeys (handle_freeze_escrow env s)
  unfolding handle_freeze_escrow respond
  handle_freeze_escrow-LeavesKeys s = search (escrow_leaves, freeze_escrow-LeavesKeys) depth 12
