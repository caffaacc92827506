-- ===== src/Prelude/Int.antt =====
-- Signed integers over the native numbers, and Go's two's complement conversions.
use Prim.Native.Nat.{ℕ, suc, ◌+◌, ◌-◌, ◌%◌, ◌^◌, ◌≤◌, ◌<◌}
use mathlib.Core.Path.{◌≡◌}
use mathlib.Core.Bool.{Bool, true}
use mathlib.Core.Logic.{◌↔◌}
use native.Mathlib.Omega.{arith}
use bunnymq.Prelude.Tests.{ltb, leb, eqb, if◌then◌else◌}

-- `negsuc n` is -(n + 1).
pub data ℤ : Type 0 where
  pos : ℕ → ℤ
  negsuc : ℕ → ℤ

abbrev pub pos_part : ℤ → ℕ
pos_part (pos n) = n
pos_part (negsuc n) = 0

abbrev pub neg_part : ℤ → ℕ
neg_part (pos n) = 0
neg_part (negsuc n) = suc n

-- a - b, as an integer.
abbrev pub sub_ℕ : ℕ → ℕ → ℤ
sub_ℕ a b = if leb b a then pos (a - b) else negsuc (b - a - 1)

infixl 65 ◌+ℤ◌ ◌-ℤ◌
infix 50 ◌≤ℤ◌ ◌<ℤ◌
unfoldable pub ◌+ℤ◌ : ℤ → ℤ → ℤ
a +ℤ b = sub_ℕ (pos_part a + pos_part b) (neg_part a + neg_part b)

unfoldable pub ◌-ℤ◌ : ℤ → ℤ → ℤ
a -ℤ b = sub_ℕ (pos_part a + neg_part b) (neg_part a + pos_part b)

abbrev pub ◌≤ℤ◌ : ℤ → ℤ → Type 0
a ≤ℤ b = pos_part a + neg_part b ≤ pos_part b + neg_part a

abbrev pub ◌<ℤ◌ : ℤ → ℤ → Type 0
a <ℤ b = pos_part a + neg_part b < pos_part b + neg_part a

abbrev pub ltb_ℤ : ℤ → ℤ → Bool
ltb_ℤ a b = ltb (pos_part a + neg_part b) (pos_part b + neg_part a)

abbrev pub leb_ℤ : ℤ → ℤ → Bool
leb_ℤ a b = leb (pos_part a + neg_part b) (pos_part b + neg_part a)

abbrev pub eqb_ℤ : ℤ → ℤ → Bool
eqb_ℤ a b = eqb (pos_part a + neg_part b) (pos_part b + neg_part a)

pub eqb_ℤ_iff : (a b : ℤ) → (eqb_ℤ a b ≡ true) ↔ (a ≡ b)
eqb_ℤ_iff a b = ground arith

-- The low bits of a number read as an `int32`, as Go's `int32(x)` does.
abbrev of_bits32 : ℕ → ℤ
of_bits32 r = if ltb r (2 ^ 31) then pos r else negsuc (2 ^ 32 - 1 - r)

-- An exact result stored in an `int32`.
unfoldable pub wrap_i32 : ℤ → ℤ
wrap_i32 (pos n) = of_bits32 (n % 2 ^ 32)
wrap_i32 (negsuc n) = of_bits32 (2 ^ 32 - 1 - n % 2 ^ 32)

-- The bit pattern of an `int64`, `uint64(x)`, and back, `int64(x)`.
unfoldable pub to_u64 : ℤ → ℕ
to_u64 (pos n) = n % 2 ^ 64
to_u64 (negsuc n) = 2 ^ 64 - 1 - n % 2 ^ 64

unfoldable pub of_u64 : ℕ → ℤ
of_u64 r = if ltb (r % 2 ^ 64) (2 ^ 63) then pos (r % 2 ^ 64) else negsuc (2 ^ 64 - 1 - r % 2 ^ 64)

abbrev pub IsI32 : ℤ → Type 0
IsI32 z = (pos_part z < 2 ^ 31) × (neg_part z ≤ 2 ^ 31)

abbrev pub IsI64 : ℤ → Type 0
IsI64 z = (pos_part z < 2 ^ 63) × (neg_part z ≤ 2 ^ 63)

pub wrap_i32_pos : (n : ℕ) → n < 2 ^ 31 → wrap_i32 (pos n) ≡ pos n
unfolding wrap_i32
wrap_i32_pos n h = ground arith

pub wrap_i32_of_IsI32 : (z : ℤ) → IsI32 z → wrap_i32 z ≡ z
unfolding wrap_i32
wrap_i32_of_IsI32 z h = ground arith

pub of_u64-to_u64 : (z : ℤ) → IsI64 z → of_u64 (to_u64 z) ≡ z
unfolding of_u64 to_u64
of_u64-to_u64 z h = ground arith

pub to_u64-lt : (z : ℤ) → to_u64 z < 2 ^ 64
unfolding to_u64
to_u64-lt z = ground arith

pub +ℤ_pos : (m n : ℕ) → pos m +ℤ pos n ≡ pos (m + n)
unfolding ◌+ℤ◌
+ℤ_pos m n = ground arith

pub to_u64_pos : (n : ℕ) → n < 2 ^ 64 → to_u64 (pos n) ≡ n
unfolding to_u64
to_u64_pos n h = ground arith

pub wrap_i32_difference : (m n : ℕ) → n ≤ m → m < 2 ^ 31 → wrap_i32 (pos m -ℤ pos n) ≡ pos (m - n)
unfolding wrap_i32 ◌-ℤ◌
wrap_i32_difference m n h k = ground arith

pub wrap_i32_close : (m n : ℕ) → n ≤ m → m - n < 2 ^ 31 → wrap_i32 (pos m -ℤ pos n) ≡ pos (m - n)
unfolding wrap_i32 ◌-ℤ◌
wrap_i32_close m n h k = ground arith

pub wrap_i32-IsI32 : (z : ℤ) → IsI32 (wrap_i32 z)
unfolding wrap_i32
wrap_i32-IsI32 z = ground arith
