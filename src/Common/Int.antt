-- ===== src/Common/Int.antt =====
-- Signed integers over the native numbers, and the `i64` of the source.
use Prim.Native.Nat.{ℕ, suc, ◌+◌, ◌-◌, ◌%◌, ◌^◌, ◌≤◌, ◌<◌, min}
use mathlib.Core.Path.{◌≡◌, ap}
use mathlib.Core.Bool.{Bool}
use native.Mathlib.Omega.{arith}
use cr_faucet.Common.Tests.{ltb, leb, if◌then◌else◌}

-- `negsuc n` is -(n + 1).
pub data ℤ : Type 0 where
  pos : ℕ → ℤ
  negsuc : ℕ → ℤ

abbrev pub pos_part : ℤ → ℕ
pos_part (pos n) = n
pos_part (negsuc _) = 0

abbrev pub neg_part : ℤ → ℕ
neg_part (pos _) = 0
neg_part (negsuc n) = suc n

abbrev pub sub_ℕ : ℕ → ℕ → ℤ
sub_ℕ a b = if leb b a then pos (a - b) else negsuc (b - a - 1)

infixl 65 ◌+ℤ◌ ◌-ℤ◌
infix 50 ◌≤ℤ◌ ◌<ℤ◌
unfoldable pub ◌+ℤ◌ : ℤ → ℤ → ℤ
a +ℤ b = sub_ℕ (pos_part a + pos_part b) (neg_part a + neg_part b)

unfoldable pub ◌-ℤ◌ : ℤ → ℤ → ℤ
a -ℤ b = sub_ℕ (pos_part a + neg_part b) (neg_part a + pos_part b)

abbrev pub ◌≤ℤ◌ : ℤ → ℤ → Type 0
a ≤ℤ b = pos_part a + neg_part b ≤ pos_part b + neg_part a

abbrev pub ◌<ℤ◌ : ℤ → ℤ → Type 0
a <ℤ b = pos_part a + neg_part b < pos_part b + neg_part a

abbrev pub ltb_ℤ : ℤ → ℤ → Bool
ltb_ℤ a b = ltb (pos_part a + neg_part b) (pos_part b + neg_part a)

abbrev pub leb_ℤ : ℤ → ℤ → Bool
leb_ℤ a b = leb (pos_part a + neg_part b) (pos_part b + neg_part a)

abbrev pub max_ℤ : ℤ → ℤ → ℤ
max_ℤ a b = if ltb_ℤ a b then b else a

-- One lemma for each operation lets `omega` work with the operations shut.
pub +ℤ_parts :
    (a b : ℤ)
    → pos_part (a +ℤ b) + neg_part a + neg_part b ≡ neg_part (a +ℤ b) + pos_part a + pos_part b
unfolding ◌+ℤ◌
+ℤ_parts a b = ground arith

pub -ℤ_parts :
    (a b : ℤ)
    → pos_part (a -ℤ b) + neg_part a + pos_part b ≡ neg_part (a -ℤ b) + pos_part a + neg_part b
unfolding ◌-ℤ◌
-ℤ_parts a b = ground arith

pub eq_of_parts : (a b : ℤ) → pos_part a + neg_part b ≡ pos_part b + neg_part a → a ≡ b
eq_of_parts a b h = ground arith

-- An integer has one sign.
pub one_sign : (a : ℤ) → min (pos_part a) (neg_part a) ≡ 0
one_sign (pos n) = omega arith
one_sign (negsuc n) = omega arith

pub ruleset int_laws = (arith, +ℤ_parts, -ℤ_parts, eq_of_parts)

pub +ℤ_zero : (a : ℤ) → a +ℤ pos 0 ≡ a
+ℤ_zero a = omega int_laws

pub +ℤ_cancel : (x y a : ℤ) → x +ℤ a ≡ y +ℤ a → x ≡ y
+ℤ_cancel x y a h = omega (int_laws, ap pos_part h, ap neg_part h)

pub +ℤ_move : (x y a : ℤ) → x +ℤ a ≡ y → x ≡ y +ℤ (pos 0 -ℤ a)
+ℤ_move x y a h = omega (int_laws, ap pos_part h, ap neg_part h)

abbrev pub i64_max : ℕ
i64_max = 2 ^ 63 - 1

-- The values of an `i64`.
abbrev pub InI64 : ℤ → Type 0
InI64 z = (pos_part z ≤ i64_max) × (neg_part z ≤ 2 ^ 63)

abbrev pub in_i64 : ℤ → Bool
in_i64 z = if leb (pos_part z) i64_max then leb (neg_part z) (2 ^ 63) else ltb 1 0

-- Arithmetic on `i64` that stops at the ends of the range.
abbrev pub saturate_i64 : ℤ → ℤ
saturate_i64 z =
    if ltb i64_max (pos_part z)
    then pos i64_max
    else if ltb (2 ^ 63) (neg_part z)
    then negsuc (2 ^ 63 - 1)
    else z

-- A two's complement bit pattern as the `i64` it stands for.
abbrev pub of_bits : ℕ → ℤ
of_bits w = if ltb w (2 ^ 63) then pos w else negsuc (2 ^ 64 - w - 1)

-- Arithmetic on `i64` that wraps.
unfoldable pub wrap_i64 : ℤ → ℤ
wrap_i64 (pos n) = of_bits (n % 2 ^ 64)
wrap_i64 (negsuc n) = of_bits (2 ^ 64 - 1 - n % 2 ^ 64)

pub wrap_i64_id : (z : ℤ) → InI64 z → wrap_i64 z ≡ z
unfolding wrap_i64
wrap_i64_id (pos n) h = ground arith
wrap_i64_id (negsuc n) h = ground arith
