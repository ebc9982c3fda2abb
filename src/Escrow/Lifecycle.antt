-- ===== src/Escrow/Lifecycle.antt =====
-- internal/usecase/escrow/create_escrow.go, get_escrow.go, mark_delivered.go, freeze_escrow.go and
-- audit_emit.go
pub mod Created
use airbar_finance.Prelude.{◌||◌, not, none, []}
use airbar_finance.Prelude.Int.{ℤ, pos, leb_ℤ}
use airbar_finance.Prelude.Text.{Text, is_empty}
use airbar_finance.Domain.Errors.{escrow, invalid_amount, invalid_transition}
use airbar_finance.Domain.Escrow.{Escrow, created, dispute_window, frozen, unset}
use airbar_finance.Store.World.{Env, M, ◌>>=◌, ◌>>◌, pure, ignore, fail_if}
use airbar_finance.Audit.{emit_escrow_created, emit_escrow_status_changed}
use airbar_finance.Escrow.Status.{status_text, can_mark_delivered, can_freeze}
use airbar_finance.Escrow.Repository.{create, get_by_shipment_id, update}

unfoldable pub emit_escrow_status : Env → Escrow → M (Unit {0})
emit_escrow_status env e =
    ignore (emit_escrow_status_changed env e.id e.shipment_id (status_text e.status))

pub record CreateEscrowInput : Type 0 where
  pub shipment_id : Text
  pub carrier_user_id : Text
  pub payer_user_id : Text
  pub amount : ℤ

abbrev pub new_escrow : CreateEscrowInput → Escrow
new_escrow input = record {
  id = [];
  shipment_id = input.shipment_id;
  carrier_user_id = input.carrier_user_id;
  payer_user_id = input.payer_user_id;
  amount = input.amount;
  status = created;
  payment_order_id = [];
  funding_source = unset;
  promo_credit_funded = pos 0;
  funded_at = none;
  released_at = none;
  refunded_at = none;
  created_at = 0;
  updated_at = 0;
}

unfoldable pub create_escrow : Env → CreateEscrowInput → M Escrow
create_escrow env input = do
  fail_if
      (is_empty input.shipment_id || is_empty input.carrier_user_id || is_empty input.payer_user_id)
      (escrow invalid_amount)
  fail_if (leb_ℤ input.amount (pos 0)) (escrow invalid_amount)
  e ← create env (new_escrow input)
  ignore (emit_escrow_created env e.id e.shipment_id (status_text e.status))
  pure e

unfoldable pub get_escrow : Env → Text → M Escrow
get_escrow env shipment_id = get_by_shipment_id env shipment_id

unfoldable pub mark_delivered : Env → Text → M Escrow
mark_delivered env shipment_id = do
  fail_if (is_empty shipment_id) (escrow invalid_amount)
  e ← get_by_shipment_id env shipment_id
  fail_if (not (can_mark_delivered e.status)) (escrow invalid_transition)
  let e' = record e { status = dispute_window }
  update env e'
  emit_escrow_status env e'
  pure e'

unfoldable pub freeze_escrow : Env → Text → M Escrow
freeze_escrow env shipment_id = do
  fail_if (is_empty shipment_id) (escrow invalid_amount)
  e ← get_by_shipment_id env shipment_id
  fail_if (not (can_freeze e.status)) (escrow invalid_transition)
  let e' = record e { status = frozen }
  update env e'
  emit_escrow_status env e'
  pure e'
