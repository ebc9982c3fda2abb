-- ===== src/Payment/Balanced/Statements.antt =====
-- The statements on orders and provider events keep a property that does not look at their tables.
use airbar_finance.Prelude.{List, ℕ, Bool, inl, inr, Bool-cases, any, ◌||◌, not}
use airbar_finance.Prelude.Int.{pos, leb_ℤ}
use airbar_finance.Prelude.Text.{Text, same, is_empty}
use airbar_finance.Domain.Audit.{Payload}
use airbar_finance.Domain.Payment.{Order}
use airbar_finance.Domain.Provider.{EventType, Event}
use airbar_finance.Store.World.{Db, Env}
use airbar_finance.Store.Keeps.{Keeps, Preserves, keeps_rules}
use airbar_finance.Ledger.Post.Ignores.{Ignores, posting-Keeps}
use airbar_finance.Ledger.Post.Keeps.{two_IsNarrow}
use airbar_finance.Audit.{emit-Keeps, emit_payment_created, emit_payment_status_changed}
use airbar_finance.Escrow.Balanced.{fund_escrow-Keeps, escrow_get-Keeps}
use airbar_finance.Payment.Repository.{
  insert_order, create, select_order, get_by_id, select_by_authority, get_by_authority,
  update_order, update,
}
use airbar_finance.Payment.Events.{insert_event, create_event}

-- `P` does not look at the tables of orders and provider events.
pub record IgnoresPayments (P : Db → Type 0) : Type 0 where
  pub orders : (rows : List Order) (d : Db) → P d → P (record d { orders = rows })
  pub provider_events : (rows : List Event) (d : Db) → P d → P (record d { provider_events = rows })

module _ {P : Db → Type 0} (p : IgnoresPayments P) where
  insert_order-Preserves : (row : Order) → Preserves P (insert_order row)
  unfolding insert_order
  insert_order-Preserves row = record {
    at = λ d h. elim (Bool-cases (leb_ℤ row.amount (pos 0))) [
      | inl bad ↦ rw bad h
      | inr good ↦ elim (Bool-cases (any (λ r. same r.id row.id) d.orders)) [
        | inl taken ↦ rw (good, taken) h
        | inr free ↦ rw (good, free) (p.orders _ d h)
      ]
    ];
  }

  select_order-Preserves : (id : Text) → Preserves P (select_order id)
  unfolding select_order
  select_order-Preserves id = record { at = λ d h. h }

  select_by_authority-Preserves : (a : Text) → Preserves P (select_by_authority a)
  unfolding select_by_authority
  select_by_authority-Preserves a = record { at = λ d h. h }

  update_order-Preserves : (o : Order) (now : ℕ) → Preserves P (update_order o now)
  unfolding update_order
  update_order-Preserves o now = record {
    at = λ d h. elim (Bool-cases (any (λ r. same r.id o.id) d.orders)) [
      | inl known ↦ rw known (p.orders _ d h)
      | inr missing ↦ rw missing h
    ];
  }

  insert_event-Preserves : (row : Event) → Preserves P (insert_event row)
  unfolding insert_event
  insert_event-Preserves row = record {
    at = λ d h.
        elim (Bool-cases
          (any (λ r. same r.idempotency_key row.idempotency_key) d.provider_events)) [
            | inl old ↦ rw old h
            | inr new ↦
                elim (Bool-cases (
                  not (
                    is_empty row.payment_order_id
                    || any (λ o. same o.id row.payment_order_id) d.orders))) [
                      | inl foreign ↦ rw (new, foreign) h
                      | inr known ↦ rw (new, known) (p.provider_events _ d h)
                    ]
          ];
  }

ruleset order_statements = (
  keeps_rules, insert_order-Preserves, select_order-Preserves, select_by_authority-Preserves,
  update_order-Preserves, insert_event-Preserves,
)

module _ {P : Db → Type 0} (k : Ignores P) (p : IgnoresPayments P) (env : Env) where
  pub create-Keeps : (row : Order) → Keeps P (create env row)
  unfolding create
  create-Keeps row = search order_statements depth 10

  pub get_by_id-Keeps : (id : Text) → Keeps P (get_by_id env id)
  unfolding get_by_id
  get_by_id-Keeps id = search order_statements depth 10

  pub get_by_authority-Keeps : (a : Text) → Keeps P (get_by_authority env a)
  unfolding get_by_authority
  get_by_authority-Keeps a = search order_statements depth 10

  pub update-Keeps : (row : Order) → Keeps P (update env row)
  unfolding update
  update-Keeps row = search order_statements depth 10

  pub create_event-Keeps :
      (t : EventType) (id : Text) (payload : Payload) (key : Text) (b : Bool)
      → Keeps P (create_event env t id payload key b)
  unfolding create_event
  create_event-Keeps t id payload key b = search order_statements depth 10

  pub emit_created-Keeps : (i s t : Text) → Keeps P (emit_payment_created env i s t)
  unfolding emit_payment_created
  emit_created-Keeps i s t = emit-Keeps k.finance_events env _ _ _ _

  pub emit_status-Keeps : (i s : Text) → Keeps P (emit_payment_status_changed env i s)
  unfolding emit_payment_status_changed
  emit_status-Keeps i s = emit-Keeps k.finance_events env _ _ _ _

pub ruleset payment_keeps = (
  keeps_rules, create-Keeps, get_by_id-Keeps, get_by_authority-Keeps, update-Keeps,
  create_event-Keeps, emit_created-Keeps, emit_status-Keeps, escrow_get-Keeps, posting-Keeps,
  two_IsNarrow, fund_escrow-Keeps,
)
