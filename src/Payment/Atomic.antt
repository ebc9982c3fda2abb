-- ===== src/Payment/Atomic.antt =====
-- What a verification that fails leaves of the committed tables.
use airbar_finance.Prelude.{Bool, true, false, Option, none, some, inl, inr, Bool-cases}
use airbar_finance.Prelude.Int.{ℤ}
use airbar_finance.Prelude.Text.{Text, is_empty}
use airbar_finance.Domain.Audit.{Payload}
use airbar_finance.Domain.Payment.{
  Order, Purpose, shipment, wallet_topup, Status, pending, confirmed, failed,
}
use airbar_finance.Domain.Provider.{EventType}
use airbar_finance.Store.World.{Db, Env}
use airbar_finance.Store.Keeps.{Preserves}
use airbar_finance.Store.Atomic.{Shields, shields_rules}
use airbar_finance.Store.Reverts.{
  Stays, Reverts, Reverts-bind, Reverts-Stays, Reverts-with_tx, Stays-pure, Stays-fail,
  Stays-fail_if, reverts_rules,
}
use airbar_finance.Audit.{emit, emit_payment_status_changed}
use airbar_finance.Ledger.Repository.Atomic.{Unchanged}
use airbar_finance.Ledger.Post.Atomic.{post_journal-Shields}
use airbar_finance.Escrow.Atomic.{fund_escrow-Shields}
use airbar_finance.Payment.Repository.{
  select_order, get_by_id, select_by_authority, get_by_authority, update,
}
use airbar_finance.Payment.Events.{create_event}
use airbar_finance.Payment.Verify.{
  VerifyOrderInput, load_order, complete, confirm_current, confirm, after_verify, verify_loaded,
  verify_order,
}

module _ {old : Db} (env : Env) where
  get_by_id-Shields : (id : Text) → Shields (Unchanged old) (get_by_id env id)
  unfolding get_by_id
  get_by_id-Shields id = search shields_rules

  update-Shields : (row : Order) → Shields (Unchanged old) (update env row)
  unfolding update
  update-Shields row = search shields_rules depth 8

  create_event-Shields :
      (t : EventType) (id : Text) (p : Payload) (key : Text) (b : Bool)
      → Shields (Unchanged old) (create_event env t id p key b)
  unfolding create_event
  create_event-Shields t id p key b = search shields_rules depth 8

  emit_status-Shields : (i s : Text) → Shields (Unchanged old) (emit_payment_status_changed env i s)
  unfolding emit_payment_status_changed emit
  emit_status-Shields i s = search shields_rules depth 8

  complete-Shields : (p : Purpose) (order : Order) → Shields (Unchanged old) (complete env p order)
  unfolding complete
  complete-Shields shipment order = search (shields_rules, fund_escrow-Shields)
  complete-Shields wallet_topup order = search (shields_rules, post_journal-Shields)

ruleset confirm_shields = (
  shields_rules, get_by_id-Shields, update-Shields, create_event-Shields, emit_status-Shields,
  complete-Shields,
)

module _ {old : Db} (env : Env) where
  confirm_current-Shields :
      (amount : ℤ) (current : Order) (b : Bool)
      → Shields (Unchanged old) (confirm_current env amount current b)
  unfolding confirm_current
  confirm_current-Shields amount current true = search confirm_shields
  confirm_current-Shields amount current false = search confirm_shields depth 16

  confirm-Shields : (amount : ℤ) (id : Text) → Shields (Unchanged old) (confirm env amount id)
  unfolding confirm
  confirm-Shields amount id = search (confirm_shields, confirm_current-Shields) depth 8

  select_order-Preserves : (id : Text) → Preserves (Unchanged old) (select_order id)
  unfolding select_order
  select_order-Preserves id = record { at = λ d h. h }

  select_by_authority-Preserves : (a : Text) → Preserves (Unchanged old) (select_by_authority a)
  unfolding select_by_authority
  select_by_authority-Preserves a = record { at = λ d h. h }

  get_by_id-Stays : (id : Text) → Stays (Unchanged old) (get_by_id env id)
  unfolding get_by_id
  get_by_id-Stays id = search (reverts_rules, select_order-Preserves)

  get_by_authority-Stays : (a : Text) → Stays (Unchanged old) (get_by_authority env a)
  unfolding get_by_authority
  get_by_authority-Stays a = search (reverts_rules, select_by_authority-Preserves)

  load_order-Stays : (input : VerifyOrderInput) → Stays (Unchanged old) (load_order env input)
  unfolding load_order
  load_order-Stays input = elim (Bool-cases (is_empty input.order_id)) [
    | inl e ↦ rw (e, load_order) (search (reverts_rules, get_by_authority-Stays))
    | inr e ↦ rw (e, load_order) (get_by_id-Stays input.order_id)
  ]

  after_verify-Reverts :
      (order : Order) (answer : Option ℤ) → Reverts (Unchanged old) (after_verify env order answer)
  unfolding after_verify
  after_verify-Reverts order none = Reverts-Stays _ (Stays-fail _)
  after_verify-Reverts order (some amount) =
      Reverts-bind _ _ (Stays-fail_if _ _)
        (λ _. Reverts-with_tx env _ (confirm-Shields amount order.id))

  verify_loaded-Reverts :
      (order : Order) (s : Status) → Reverts (Unchanged old) (verify_loaded env order s)
  unfolding verify_loaded
  verify_loaded-Reverts order confirmed = Reverts-Stays _ (Stays-pure order)
  verify_loaded-Reverts order failed = Reverts-Stays _ (Stays-fail _)
  verify_loaded-Reverts order pending = after_verify-Reverts order (env.psp_verify order.authority)

  pub verify_order-Reverts :
      (input : VerifyOrderInput) → Reverts (Unchanged old) (verify_order env input)
  unfolding verify_order
  verify_order-Reverts input =
      Reverts-bind _ _ (load_order-Stays input) λ order.
        Reverts-bind _ _ (Stays-fail_if _ _) (λ _. verify_loaded-Reverts order order.status)
