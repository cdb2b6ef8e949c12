-- ===== src/Common/Int.antt =====
-- Signed integers over the native numbers, under the library's names, and Go's int64 as a
-- 64-bit pattern.
use Prim.Native.Nat.{ℕ, suc, ◌-◌, ◌*◌, ◌%◌, ◌^◌, ◌≤◌, ◌<◌}
use mathlib.Core.Path.{◌≡◌}
use mathlib.Core.Bool.{Bool, true, false}
use native.Mathlib.Omega.{arith}
use multicast_bridge.Common.Tests.{ltb, leb, if◌then◌else◌}

-- `negsuc n` is -(n + 1).
pub data ℤ : Type 0 where
  pos : ℕ → ℤ
  negsuc : ℕ → ℤ

abbrev pub pos_part : ℤ → ℕ
pos_part (pos n) = n
pos_part (negsuc n) = 0

abbrev pub neg_part : ℤ → ℕ
neg_part (pos n) = 0
neg_part (negsuc n) = suc n

-- a - b, as an integer.
abbrev pub sub_ℕ : ℕ → ℕ → ℤ
sub_ℕ a b = if leb b a then pos (a - b) else negsuc (b - a - 1)

-- A Go int64 holds an integer of this range.
abbrev pub IsI64 : ℤ → Type 0
IsI64 z = (pos_part z < 2 ^ 63) × (neg_part z ≤ 2 ^ 63)

-- The conversion `uint64(z)`: the two's complement pattern.
abbrev pub to_u64 : ℤ → ℕ
to_u64 (pos n) = n % 2 ^ 64
to_u64 (negsuc n) = 2 ^ 64 - 1 - n % 2 ^ 64

-- The conversion `int64(w)` of a 64-bit pattern.
abbrev pub to_i64 : ℕ → ℤ
to_i64 w = if ltb w (2 ^ 63) then pos w else negsuc (2 ^ 64 - 1 - w)

pub to_u64-lt : (z : ℤ) → to_u64 z < 2 ^ 64
to_u64-lt (pos n) = omega arith
to_u64-lt (negsuc n) = omega arith

pub to_i64-to_u64 : (z : ℤ) → IsI64 z → to_i64 (to_u64 z) ≡ z
to_i64-to_u64 (pos n) h = ground arith
to_i64-to_u64 (negsuc n) h = ground arith

pub to_u64-to_i64 : (w : ℕ) → w < 2 ^ 64 → to_u64 (to_i64 w) ≡ w
to_u64-to_i64 w h = ground arith

-- The product of two int64s.
abbrev pub mul_i64 : ℤ → ℤ → ℤ
mul_i64 a b = to_i64 (to_u64 a * to_u64 b % 2 ^ 64)

-- The comparison `a < b`.
abbrev pub less : ℤ → ℤ → Bool
less (pos a) (pos b) = ltb a b
less (pos a) (negsuc b) = false
less (negsuc a) (pos b) = true
less (negsuc a) (negsuc b) = ltb b a
