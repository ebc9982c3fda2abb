-- ===== src/Prelude/Int.antt =====
-- Signed integers over the native numbers, and the arithmetic of Go's int64 on them.
use airbar_finance.Prelude.{
  ℕ, suc, ◌+◌, ◌-◌, ◌%◌, ◌^◌, ◌≤◌, ◌<◌, ◌≡◌, ap, Bool, true, false, ◌&&◌, arith, ltb, leb, ◌==◌,
  if◌then◌else◌,
}

-- `negsuc n` is -(n + 1).
pub data ℤ : Type 0 where
  pos : ℕ → ℤ
  negsuc : ℕ → ℤ

abbrev pub pos_part : ℤ → ℕ
pos_part (pos n) = n
pos_part (negsuc n) = 0

abbrev pub neg_part : ℤ → ℕ
neg_part (pos n) = 0
neg_part (negsuc n) = suc n

abbrev pub sub_ℕ : ℕ → ℕ → ℤ
sub_ℕ a b = if leb b a then pos (a - b) else negsuc (b - a - 1)

infixl 65 ◌+ℤ◌ ◌-ℤ◌
infix 50 ◌≤ℤ◌ ◌<ℤ◌
unfoldable pub ◌+ℤ◌ : ℤ → ℤ → ℤ
a +ℤ b = sub_ℕ (pos_part a + pos_part b) (neg_part a + neg_part b)

unfoldable pub ◌-ℤ◌ : ℤ → ℤ → ℤ
a -ℤ b = sub_ℕ (pos_part a + neg_part b) (neg_part a + pos_part b)

abbrev pub ◌≤ℤ◌ : ℤ → ℤ → Type 0
a ≤ℤ b = pos_part a + neg_part b ≤ pos_part b + neg_part a

abbrev pub ◌<ℤ◌ : ℤ → ℤ → Type 0
a <ℤ b = pos_part a + neg_part b < pos_part b + neg_part a

abbrev pub ltb_ℤ : ℤ → ℤ → Bool
ltb_ℤ a b = ltb (pos_part a + neg_part b) (pos_part b + neg_part a)

abbrev pub leb_ℤ : ℤ → ℤ → Bool
leb_ℤ a b = leb (pos_part a + neg_part b) (pos_part b + neg_part a)

abbrev pub eqb_ℤ : ℤ → ℤ → Bool
eqb_ℤ a b = (pos_part a + neg_part b) == (pos_part b + neg_part a)

-- With these the operations can stay shut.
pub +ℤ_parts :
    (a b : ℤ)
    → pos_part (a +ℤ b) + neg_part a + neg_part b ≡ neg_part (a +ℤ b) + pos_part a + pos_part b
unfolding ◌+ℤ◌
+ℤ_parts a b = ground arith

pub -ℤ_parts :
    (a b : ℤ)
    → pos_part (a -ℤ b) + neg_part a + pos_part b ≡ neg_part (a -ℤ b) + pos_part a + neg_part b
unfolding ◌-ℤ◌
-ℤ_parts a b = ground arith

pub eq_of_parts : (a b : ℤ) → pos_part a + neg_part b ≡ pos_part b + neg_part a → a ≡ b
eq_of_parts a b h = ground arith

-- What `omega` can read of an equation of integers.
pub parts_of_eq : (a b : ℤ) → a ≡ b → (pos_part a ≡ pos_part b) × (neg_part a ≡ neg_part b)
parts_of_eq a b h = (ap pos_part h, ap neg_part h)

pub ruleset int_laws = (arith, +ℤ_parts, -ℤ_parts, eq_of_parts)

-- The int64 with these low 64 bits.
unfoldable pub signed_64 : ℕ → ℤ
signed_64 n = if ltb n (2 ^ 63) then pos n else negsuc (2 ^ 64 - 1 - n)

-- Go's wrap-around of an exact result to int64.
unfoldable pub wrap_64 : ℤ → ℤ
unfolding signed_64
wrap_64 (pos n) = signed_64 (n % 2 ^ 64)
wrap_64 (negsuc n) = signed_64 (2 ^ 64 - 1 - n % 2 ^ 64)

-- `a + b` and `a - b` on int64.
unfoldable pub add_64 : ℤ → ℤ → ℤ
add_64 a b = wrap_64 (a +ℤ b)

unfoldable pub sub_64 : ℤ → ℤ → ℤ
sub_64 a b = wrap_64 (a -ℤ b)

abbrev pub IsInt64 : ℤ → Type 0
IsInt64 a = (pos_part a < 2 ^ 63) × (neg_part a ≤ 2 ^ 63)

abbrev pub in_int64 : ℤ → Bool
in_int64 a = ltb (pos_part a) (2 ^ 63) && leb (neg_part a) (2 ^ 63)

pub wrap_64_id : (a : ℤ) → IsInt64 a → wrap_64 a ≡ a
unfolding wrap_64
wrap_64_id (pos n) h = ground arith
wrap_64_id (negsuc n) h = ground arith

pub wrap_64-IsInt64 : (a : ℤ) → IsInt64 (wrap_64 a)
unfolding wrap_64
wrap_64-IsInt64 (pos n) = ground arith
wrap_64-IsInt64 (negsuc n) = ground arith

-- A difference of two non-negative int64 values does not wrap.
pub sub_64_exact : (a b : ℤ) → IsInt64 (a -ℤ b) → sub_64 a b ≡ a -ℤ b
unfolding sub_64
sub_64_exact a b h = wrap_64_id (a -ℤ b) h

pub add_64_exact : (a b : ℤ) → IsInt64 (a +ℤ b) → add_64 a b ≡ a +ℤ b
unfolding add_64
add_64_exact a b h = wrap_64_id (a +ℤ b) h
