-- ===== src/Withdrawal/Status.antt =====
-- internal/domain/withdrawal/hash.go, and the names of statuses. The guards of the use cases compare
-- a status with one or two others.
use airbar_finance.Prelude.{Bool, true, false, [], ◌∷◌, ◌==◌, if◌then◌else◌}
use airbar_finance.Prelude.Text.{Text, text}
use airbar_finance.Domain.Withdrawal.{
  Status, pending, approved, sent_to_bank, settled, failed, completed, rejected,
}
use airbar_finance.Store.World.{Env}

unfoldable pub status_text : Status → Text
status_text pending = text "PENDING"
status_text approved = text "APPROVED"
status_text sent_to_bank = text "SENT_TO_BANK"
status_text settled = text "SETTLED"
status_text failed = text "FAILED"
status_text completed = text "COMPLETED"
status_text rejected = text "REJECTED"

unfoldable pub is_pending : Status → Bool
is_pending pending = true
is_pending _ = false

unfoldable pub is_approved : Status → Bool
is_approved approved = true
is_approved _ = false

unfoldable pub is_sent_to_bank : Status → Bool
is_sent_to_bank sent_to_bank = true
is_sent_to_bank _ = false

-- `strings.ReplaceAll(s, " ", "")`
unfoldable pub without_spaces : Text → Text
without_spaces [] = []
without_spaces (c ∷ s) = let rest = without_spaces s in if c == b' ' then rest else c ∷ rest

unfoldable pub hash_destination : Env → Text → Text
hash_destination env iban = env.sha256_hex (env.to_upper (without_spaces (env.trim_space iban)))
