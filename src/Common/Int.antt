-- ===== src/Common/Int.antt =====
-- Signed integers over the native numbers, and Go's 64-bit wrap-around.
use Prim.Native.Nat.{ℕ, suc, ◌+◌, ◌-◌, ◌*◌, ◌/◌, ◌%◌, ◌≤◌, ◌<◌}
use mathlib.Core.Path.{◌≡◌}
use mathlib.Core.Bool.{Bool}
use native.Mathlib.Omega.{arith}
use container_builder_shim.Common.Tests.{ltb, leb, if◌then◌else◌}

-- `negsuc n` is -(n + 1).
pub data ℤ : Type 0 where
  pos : ℕ → ℤ
  negsuc : ℕ → ℤ

abbrev pub pos_part : ℤ → ℕ
pos_part (pos n) = n
pos_part (negsuc n) = 0

abbrev pub neg_part : ℤ → ℕ
neg_part (pos n) = 0
neg_part (negsuc n) = suc n

abbrev pub ltb_ℤ : ℤ → ℤ → Bool
ltb_ℤ a b = ltb (pos_part a + neg_part b) (pos_part b + neg_part a)

abbrev pub leb_ℤ : ℤ → ℤ → Bool
leb_ℤ a b = leb (pos_part a + neg_part b) (pos_part b + neg_part a)

abbrev pub i64_half : ℕ
i64_half = 9223372036854775808

-- The int64 whose bits are those of the natural number.
unfoldable pub i64 : ℕ → ℤ
i64 n =
    let m = n % (2 * i64_half) in if ltb m i64_half then pos m else negsuc (2 * i64_half - m - 1)

-- The bits of an int64, as a natural number below 2 ^ 64.
abbrev pub bits : ℤ → ℕ
bits (pos n) = n
bits (negsuc n) = 2 * i64_half - n - 1

infixl 65 ◌+ℤ◌
-- int64 addition.
unfoldable pub ◌+ℤ◌ : ℤ → ℤ → ℤ
unfolding i64
a +ℤ b = i64 (bits a + bits b)

pub i64_small : (n : ℕ) → n < i64_half → i64 n ≡ pos n
unfolding i64
i64_small n h = ground arith

pub +ℤ_small : (a b : ℕ) → a + b < i64_half → pos a +ℤ pos b ≡ pos (a + b)
unfolding ◌+ℤ◌
+ℤ_small a b h = i64_small (a + b) h

infixl 65 ◌-ℤ◌
-- int64 subtraction.
unfoldable pub ◌-ℤ◌ : ℤ → ℤ → ℤ
unfolding i64
a -ℤ b = i64 (bits a + 2 * i64_half - bits b)

-- Go's division truncates towards zero; the divisor is positive.
abbrev pub quot : ℤ → ℕ → ℤ
quot (pos n) d = pos (n / d)
quot (negsuc n) d = if leb d (suc n) then negsuc (suc n / d - 1) else pos 0

pub -ℤ_small : (a b : ℕ) → a < i64_half → b ≤ a → pos a -ℤ pos b ≡ pos (a - b)
unfolding ◌-ℤ◌ i64
-ℤ_small a b h k = ground arith
