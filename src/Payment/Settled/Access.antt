-- ===== src/Payment/Settled/Access.antt =====
-- The repositories of orders and events, and a confirmed order.
use airbar_finance.Prelude.{Bool, Option, none, some}
use airbar_finance.Prelude.Text.{Text}
use airbar_finance.Domain.Audit.{Payload}
use airbar_finance.Domain.Payment.{Order}
use airbar_finance.Domain.Provider.{EventType}
use airbar_finance.Store.World.{Env}
use airbar_finance.Store.Keeps.{
  Keeps, Keeps-bind, Keeps-on_querier, Keeps-now_utc, Keeps-lift, Keeps-new_uuid, keeps_rules,
}
use airbar_finance.Store.Yields.{
  Satisfies, Yields, Yields-pure, Yields-lift, Yields-on_querier, Yields-bind, Yields-after,
}
use airbar_finance.Ledger.Post.Ignores.{Ignores, unposted-Keeps}
use airbar_finance.Audit.{emit-Keeps, emit_payment_created, emit_payment_status_changed}
use airbar_finance.Payment.Repository.{
  create, select_order, get_by_id, select_by_authority, get_by_authority, update, or_not_found,
}
use airbar_finance.Payment.Events.{create_event}
use airbar_finance.Payment.Settled.{
  IsSettled, Agrees, Others, OfSome, insert_order-IsSettled, insert_order-Others,
  update_order-IsSettled, insert_event-IsSettled, select_by_authority-Agrees,
}

pub IsSettled-Ignores : (id : Text) → Ignores (IsSettled id)
IsSettled-Ignores id = record {
  wallet_accounts = λ rows d h. h;
  credit_accounts = λ rows d h. h;
  escrow_insertion = λ e d n h. h;
  escrow_update = λ e now d n h. h;
  grants = λ rows d h. h;
  withdrawals = λ rows d h. h;
  finance_events = λ rows d h. h;
  runs = λ rows d h. h;
  posting =
      λ env input narrow. unposted-Keeps (λ rows d h. h) (λ rows d h. h) (λ rows d h. h) env input;
}

found-Satisfies :
    (R : Order → Type 0) (row : Option Order) → OfSome R row → Satisfies R (or_not_found row)
found-Satisfies R none h = tt
found-Satisfies R (some order) h = h

module _ (id : Text) (env : Env) where
  pub create-Keeps : (row : Order) → Keeps (IsSettled id) (create env row)
  unfolding create
  create-Keeps row = search (keeps_rules, insert_order-IsSettled) depth 10

  pub create-Yields : (row : Order) → Yields (IsSettled id) (Others id) (create env row)
  unfolding create
  create-Yields row = Yields-after _ _ (Keeps-new_uuid env) λ new.
      Yields-after _ _ (Keeps-now_utc env) λ now.
        Yields-bind _ _ (Keeps-on_querier env _ (insert_order-IsSettled id _))
          (Yields-on_querier env _ (insert_order-Others id _)) (λ u other. Yields-pure _ other)

  pub get_by_id-Keeps : (key : Text) → Keeps (IsSettled id) (get_by_id env key)
  unfolding get_by_id select_order
  get_by_id-Keeps key =
      Keeps-bind _ _ (Keeps-on_querier env _ (record { at = λ d h. h })) (λ row. Keeps-lift _)

  -- An order that is read is the confirmed one only if it is confirmed.
  pub get_by_authority-Yields :
      (a : Text) → Yields (IsSettled id) (Agrees id) (get_by_authority env a)
  unfolding get_by_authority select_by_authority
  get_by_authority-Yields key =
      Yields-bind _ _ (Keeps-on_querier env _ (record { at = λ d h. h }))
        (Yields-on_querier env _ (select_by_authority-Agrees id key))
        (λ row a. Yields-lift _ (found-Satisfies _ row a))

  pub get_by_authority-Keeps : (key : Text) → Keeps (IsSettled id) (get_by_authority env key)
  unfolding get_by_authority select_by_authority
  get_by_authority-Keeps key =
      Keeps-bind _ _ (Keeps-on_querier env _ (record { at = λ d h. h })) (λ row. Keeps-lift _)

  pub update-Keeps : (row : Order) → Agrees id row → Keeps (IsSettled id) (update env row)
  unfolding update
  update-Keeps row a = search (keeps_rules, update_order-IsSettled) depth 10

  pub create_event-Keeps :
      (t : EventType) (o : Text) (p : Payload) (key : Text) (b : Bool)
      → Keeps (IsSettled id) (create_event env t o p key b)
  unfolding create_event
  create_event-Keeps t o p key b = search (keeps_rules, insert_event-IsSettled) depth 10

  pub emit_created-Keeps : (i s t : Text) → Keeps (IsSettled id) (emit_payment_created env i s t)
  unfolding emit_payment_created
  emit_created-Keeps i s t = emit-Keeps (λ rows d h. h) env _ _ _ _

  pub emit_status-Keeps : (i s : Text) → Keeps (IsSettled id) (emit_payment_status_changed env i s)
  unfolding emit_payment_status_changed
  emit_status-Keeps i s = emit-Keeps (λ rows d h. h) env _ _ _ _
