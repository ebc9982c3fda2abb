-- ===== src/Escrow/Status/Steps.antt =====
-- The transitions that the guards of internal/domain/escrow/transitions.go allow, with the status
-- that the use case behind each guard stores.
use airbar_finance.Prelude.{◌≡◌, ◌⊎◌, refl, Bool, true, false, inl, inr}
use airbar_finance.Domain.Escrow.{
  Status, funded, dispute_window, frozen, released, refunded, partially_refunded,
}
use airbar_finance.Escrow.Status.{
  can_pay_from_wallet, can_fund, can_mark_delivered, can_freeze, can_release, can_refund,
  can_partial_refund,
}

-- One use case, from the status that its guard reads to one that it stores: a partial refund of the
-- whole balance stores REFUNDED.
pub data Step : Status → Status → Type 0 where
  pay_step : (s : Status) → can_pay_from_wallet s ≡ true → Step s funded
  fund_step : (s : Status) → can_fund s ≡ true → Step s funded
  deliver_step : (s : Status) → can_mark_delivered s ≡ true → Step s dispute_window
  freeze_step : (s : Status) → can_freeze s ≡ true → Step s frozen
  release_step : (s : Status) → can_release s ≡ true → Step s released
  refund_step : (s : Status) → can_refund s ≡ true → Step s refunded
  partial_refund_step : (s : Status) → can_partial_refund s ≡ true → Step s partially_refunded
  partial_refund_of_all_step : (s : Status) → can_partial_refund s ≡ true → Step s refunded

-- Any number of steps.
pub data Steps : Status → Status → Type 0 where
  stay : (s : Status) → Steps s s
  then_step : (s t u : Status) → Steps s t → Step t u → Steps s u

abbrev pub IsTerminal : Status → Type 0
IsTerminal s = (s ≡ released) ⊎ (s ≡ refunded)

-- A guard that refuses both terminal statuses.
closed :
    (guard : Status → Bool) (s : Status)
    → guard released ≡ false
    → guard refunded ≡ false
    → guard s ≡ true
    → IsTerminal s
    → ⊥
closed guard s h k g (inl e) = cc (h, g, e)
closed guard s h k g (inr e) = cc (k, g, e)

-- No use case moves an escrow on from RELEASED or REFUNDED.
pub terminal_no-Step : (s t : Status) → IsTerminal s → Step s t → ⊥
unfolding can_pay_from_wallet can_fund can_mark_delivered can_freeze can_release can_refund
    can_partial_refund
terminal_no-Step s _ h (pay_step _ g) = closed can_pay_from_wallet s refl refl g h
terminal_no-Step s _ h (fund_step _ g) = closed can_fund s refl refl g h
terminal_no-Step s _ h (deliver_step _ g) = closed can_mark_delivered s refl refl g h
terminal_no-Step s _ h (freeze_step _ g) = closed can_freeze s refl refl g h
terminal_no-Step s _ h (release_step _ g) = closed can_release s refl refl g h
terminal_no-Step s _ h (refund_step _ g) = closed can_refund s refl refl g h
terminal_no-Step s _ h (partial_refund_step _ g) = closed can_partial_refund s refl refl g h
terminal_no-Step s _ h (partial_refund_of_all_step _ g) = closed can_partial_refund s refl refl g h

-- After any number of steps that the guards allow, from RELEASED or REFUNDED, the status is still
-- the same.
pub terminal_stays : (s t : Status) → IsTerminal s → Steps s t → t ≡ s
terminal_stays s _ h (stay _) = refl
terminal_stays s _ h (then_step _ t u before step) =
    absurd (terminal_no-Step t u (rw (terminal_stays s t h before) h) step)
