-- ===== src/Escrow/Status.antt =====
-- internal/domain/escrow/transitions.go, and the names of statuses.
pub mod Steps
use airbar_finance.Prelude.{Bool, true, false}
use airbar_finance.Prelude.Text.{Text, text}
use airbar_finance.Domain.Escrow.{
  Status, created, funded, locked, dispute_window, frozen, released, refunded, partially_refunded,
}

unfoldable pub status_text : Status → Text
status_text created = text "CREATED"
status_text funded = text "FUNDED"
status_text locked = text "LOCKED"
status_text dispute_window = text "DISPUTE_WINDOW"
status_text frozen = text "FROZEN"
status_text released = text "RELEASED"
status_text refunded = text "REFUNDED"
status_text partially_refunded = text "PARTIALLY_REFUNDED"

unfoldable pub can_pay_from_wallet : Status → Bool
can_pay_from_wallet created = true
can_pay_from_wallet _ = false

unfoldable pub can_fund : Status → Bool
can_fund created = true
can_fund _ = false

unfoldable pub can_mark_delivered : Status → Bool
can_mark_delivered funded = true
can_mark_delivered _ = false

unfoldable pub can_freeze : Status → Bool
can_freeze dispute_window = true
can_freeze locked = true
can_freeze _ = false

unfoldable pub can_release : Status → Bool
can_release dispute_window = true
can_release partially_refunded = true
can_release _ = false

unfoldable pub can_refund : Status → Bool
can_refund funded = true
can_refund dispute_window = true
can_refund frozen = true
can_refund partially_refunded = true
can_refund _ = false

unfoldable pub can_partial_refund : Status → Bool
unfolding can_refund
can_partial_refund s = can_refund s
