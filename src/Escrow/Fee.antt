-- ===== src/Escrow/Fee.antt =====
-- internal/domain/escrow/fee.go
use airbar_finance.Prelude.{arith, if◌then◌else◌}
use airbar_finance.Prelude.Int.{ℤ, pos, ltb_ℤ, leb_ℤ, ◌≤ℤ◌}
use airbar_finance.Store.World.{Env}

-- The product of floats is `float_fee`.
unfoldable pub calc_platform_fee : Env → ℤ → ℤ
calc_platform_fee env amount =
    if leb_ℤ amount (pos 0)
    then pos 0
    else let fee = env.float_fee amount in
      if ltb_ℤ fee (pos 0) then pos 0 else if ltb_ℤ amount fee then amount else fee

-- Whatever the product of floats is, the platform fee of an amount that is not negative lies
-- between 0 and the amount.
pub calc_platform_fee_bounds :
    (env : Env) (amount : ℤ)
    → pos 0 ≤ℤ amount
    → (pos 0 ≤ℤ calc_platform_fee env amount) × (calc_platform_fee env amount ≤ℤ amount)
unfolding calc_platform_fee
calc_platform_fee_bounds env amount h = ground arith
