-- ===== src/Common/Word.antt =====
-- `int` and `uint32_t`: an `int` is an integer in the 32-bit range, a `uint32_t` a number below
-- 2 ^ 32. Conversions go modulo 2 ^ 32, and signed sums wrap (two's complement).
use Prim.Native.Nat.{ℕ, ◌-◌, ◌%◌, ◌^◌, ◌<◌}
use mathlib.Core.Path.{◌≡◌}
use native.Mathlib.Omega.{arith}
use sis_op_ii.Common.Tests.{ltb, if◌then◌else◌}
use sis_op_ii.Common.Int.{ℤ, pos, negsuc, ◌+ℤ◌, ◌≤ℤ◌}

-- The conversion of an `int` to `uint32_t`.
unfoldable pub to_u32 : ℤ → ℕ
to_u32 (pos n) = n % 2 ^ 32
to_u32 (negsuc n) = 2 ^ 32 - 1 - n % 2 ^ 32

-- The conversion of a `uint32_t` to `int`.
unfoldable pub to_int : ℕ → ℤ
to_int n = if ltb n (2 ^ 31) then pos n else negsuc (2 ^ 32 - 1 - n)

-- `a + b` on `int`.
unfoldable pub add_int : ℤ → ℤ → ℤ
unfolding to_int to_u32 ◌+ℤ◌
add_int a b = to_int (to_u32 (a +ℤ b))

pub record IsInt (a : ℤ) : Type 0 where
  pub above : negsuc (2 ^ 31 - 1) ≤ℤ a
  pub below : a ≤ℤ pos (2 ^ 31 - 1)

pub to_u32-lt : (a : ℤ) → to_u32 a < 2 ^ 32
unfolding to_u32
to_u32-lt (pos n) = omega arith
to_u32-lt (negsuc n) = omega arith

pub to_int-to_u32 : (a : ℤ) → IsInt a → to_int (to_u32 a) ≡ a
unfolding to_int to_u32
to_int-to_u32 (pos n) h = ground arith
to_int-to_u32 (negsuc n) h = ground arith

pub to_int-IsInt : (n : ℕ) → n < 2 ^ 32 → IsInt (to_int n)
unfolding to_int
to_int-IsInt n h = ground arith

-- Inside the range a sum is exact.
pub add_int-IsInt : (a b : ℤ) → IsInt (a +ℤ b) → add_int a b ≡ a +ℤ b
unfolding add_int
add_int-IsInt a b h = to_int-to_u32 (a +ℤ b) h

pub to_u32-to_int : (n : ℕ) → n < 2 ^ 32 → to_u32 (to_int n) ≡ n
unfolding to_int to_u32
to_u32-to_int n h = ground arith
