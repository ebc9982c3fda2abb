-- ===== src/Amounts.antt =====
-- strconv.FormatInt and strconv.ParseInt at base 10 as the amount.go and format.go files of
-- internal/usecase call them, and ParseAmount of escrow, payment and withdrawal.
pub mod RoundTrip
use airbar_finance.Prelude.{
  ℕ, zero, suc, ◌+◌, ◌-◌, ◌*◌, ◌/◌, ◌%◌, ◌^◌, Bool, true, false, ◌||◌, Option, none, some, [], ◌∷◌,
  ltb, leb, ◌==◌, if◌then◌else◌,
}
use airbar_finance.Prelude.Int.{ℤ, pos, negsuc, leb_ℤ}
use airbar_finance.Prelude.Text.{Text, is_empty}
use airbar_finance.Domain.Errors.{Error}
use airbar_finance.Store.World.{Result, ok, err}

-- The decimal digits of a number before a rest. The fuel bounds their count.
unfoldable pub digits : ℕ → ℕ → Text → Text
digits zero n rest = rest
digits (suc fuel) n rest =
    let longer = digits fuel (n / 10) ((b'0' + n % 10) ∷ rest) in
    if ltb n 10 then (b'0' + n) ∷ rest else longer

-- An int64 has at most 19 digits.
unfoldable pub format_amount : ℤ → Text
format_amount (pos n) = digits 20 n []
format_amount (negsuc n) = b'-' ∷ digits 20 (suc n) []

-- The digits of ParseUint, over the number so far; `none` is a syntax or a range error.
unfoldable pub scan_digits : ℕ → Text → Option ℕ
scan_digits n [] = some n
scan_digits n (c ∷ s) =
    let rest = scan_digits (n * 10 + (c - b'0')) s in
    if ltb c b'0' || ltb b'9' c
    then none
    else if leb (2 ^ 64) (n * 10 + (c - b'0'))
    then none
    else rest

unfoldable pub parse_digits : Text → Option ℕ
parse_digits [] = none
parse_digits (c ∷ s) = scan_digits 0 (c ∷ s)

abbrev pub positive : Option ℕ → Option ℤ
positive none = none
positive (some n) = if ltb n (2 ^ 63) then some (pos n) else none

abbrev pub negative : Option ℕ → Option ℤ
negative none = none
negative (some zero) = some (pos 0)
negative (some (suc n)) = if ltb n (2 ^ 63) then some (negsuc n) else none

-- ParseInt(raw, 10, 64)
unfoldable pub parse_int : Text → Option ℤ
parse_int [] = none
parse_int (c ∷ s) =
    if c == b'-'
    then negative (parse_digits s)
    else if c == b'+'
    then positive (parse_digits s)
    else positive (parse_digits (c ∷ s))

abbrev pub positive_amount : Error → Option ℤ → Result ℤ
positive_amount invalid none = err invalid
positive_amount invalid (some amount) = if leb_ℤ amount (pos 0) then err invalid else ok amount

-- ParseAmount of usecase/escrow, usecase/payment and usecase/withdrawal, which differ in the error.
unfoldable pub parse_amount : Error → Text → Result ℤ
parse_amount invalid raw =
    if is_empty raw then err invalid else positive_amount invalid (parse_int raw)
