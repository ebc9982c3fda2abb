-- ===== src/Amounts/RoundTrip.antt =====
-- Amounts survive printing and parsing.
use native.Mathlib.Nat.{pow-suc}
use airbar_finance.Prelude.{
  ℕ, zero, suc, ◌+◌, ◌-◌, ◌*◌, ◌/◌, ◌%◌, ◌^◌, ◌==◌, ◌≤◌, ◌<◌, ◌≡◌, refl, false, some, [], ◌∷◌,
  arith, ltb, inl, inr, Bool-cases, ◌∙◌, ap,
}
use airbar_finance.Prelude.Int.{pos}
use airbar_finance.Prelude.Text.{Text, is_empty}
use airbar_finance.Domain.Errors.{Error}
use airbar_finance.Store.World.{ok}
use airbar_finance.Amounts.{
  positive, digits, format_amount, scan_digits, parse_digits, parse_int, parse_amount,
}

scan_digit :
    (m d : ℕ) (s : Text)
    → d < 10
    → m * 10 + d < 2 ^ 64
    → scan_digits m ((b'0' + d) ∷ s) ≡ scan_digits (m * 10 + d) s
unfolding scan_digits
scan_digit m d s h r = rw digit (ground arith)
  where
    digit : b'0' + d - b'0' ≡ d
    digit = omega arith

scan-digits :
    (fuel n : ℕ) (rest : Text)
    → n < 10 ^ fuel
    → n < 2 ^ 64
    → scan_digits 0 (digits fuel n rest) ≡ scan_digits n rest
unfolding digits
scan-digits zero n rest h r = rw (zero_of h)
  where
    zero_of : n < 1 → n ≡ 0
    zero_of h = omega arith
scan-digits (suc fuel) n rest h r = elim (Bool-cases (ltb n 10)) [
  | inl last ↦ rw last (
      scan_digit 0 n rest (ground arith) (omega arith) ∙ ap (λ m. scan_digits m rest) (omega arith))
  | inr more ↦ rw more (
      scan-digits fuel (n / 10) ((b'0' + n % 10) ∷ rest) (omega (arith, pow-suc 10 fuel))
        (omega arith)
      ∙ scan_digit (n / 10) (n % 10) rest (omega arith) (omega arith)
      ∙ ap (λ m. scan_digits m rest) (omega arith))
]

-- A text that begins with a digit.
abbrev BeginsWithDigit : Text → Type 0
BeginsWithDigit [] = ⊥
BeginsWithDigit (c ∷ s) = (b'0' ≤ c) × (c ≤ b'9')

digits_more :
    (fuel n c : ℕ) (s : Text) → (b'0' ≤ c) × (c ≤ b'9') → BeginsWithDigit (digits fuel n (c ∷ s))
unfolding digits
digits_more zero n c s h = h
digits_more (suc fuel) n c s h = elim (Bool-cases (ltb n 10)) [
  | inl last ↦ rw last (ground arith)
  | inr more ↦ rw more (digits_more fuel (n / 10) (b'0' + n % 10) (c ∷ s) (omega arith))
]

digits_begin : (fuel n : ℕ) → BeginsWithDigit (digits (suc fuel) n [])
unfolding digits
digits_begin fuel n = elim (Bool-cases (ltb n 10)) [
  | inl last ↦ rw last (ground arith)
  | inr more ↦ rw more (digits_more fuel (n / 10) (b'0' + n % 10) [] (omega arith))
]

parse_int-digits : (s : Text) → BeginsWithDigit s → parse_int s ≡ positive (scan_digits 0 s)
unfolding parse_int parse_digits
parse_int-digits [] b = absurd b
parse_int-digits (c ∷ s) b =
    let no_minus : (c == b'-') ≡ false = ground arith in
    let no_plus : (c == b'+') ≡ false = ground arith in rw (no_minus, no_plus) refl

positive-some : (n : ℕ) → n < 2 ^ 63 → positive (some n) ≡ some (pos n)
positive-some n h = ground arith

begins-is_empty : (s : Text) → BeginsWithDigit s → is_empty s ≡ false
begins-is_empty [] b = absurd b
begins-is_empty (c ∷ s) b = refl

-- Parsing the text that FormatAmount prints of a positive int64 amount returns the amount.
pub parse-format :
    (invalid : Error) (n : ℕ)
    → 0 < n
    → n < 2 ^ 63
    → parse_amount invalid (format_amount (pos n)) ≡ ok (pos n)
unfolding parse_amount format_amount scan_digits
parse-format invalid n h r =
    let begins = digits_begin 19 n in
    let parsed : parse_int (digits 20 n []) ≡ some (pos n) =
      parse_int-digits _ begins
      ∙ ap positive (scan-digits 20 n [] (omega arith) (omega arith))
      ∙ positive-some n r in
    rw (begins-is_empty _ begins, parsed) (ground arith)
