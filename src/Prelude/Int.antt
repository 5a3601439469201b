-- ===== src/Prelude/Int.antt =====
-- Signed integers over the native numbers, under the library's names (its ℤ stands on the unary ℕ).
use Prim.Native.Nat.{ℕ, suc, ◌+◌, ◌-◌, ◌^◌}
use mathlib.Core.Bool.{Bool}
use dezhou.Prelude.Tests.{ltb, leb, if◌then◌else◌}

-- `negsuc n` is -(n + 1).
pub data ℤ : Type 0 where
  pos : ℕ → ℤ
  negsuc : ℕ → ℤ

abbrev pub pos_part : ℤ → ℕ
pos_part (pos n) = n
pos_part (negsuc n) = 0

abbrev pub neg_part : ℤ → ℕ
neg_part (pos n) = 0
neg_part (negsuc n) = suc n

-- a - b, as an integer.
abbrev pub sub_ℕ : ℕ → ℕ → ℤ
sub_ℕ a b = if leb b a then pos (a - b) else negsuc (b - a - 1)

abbrev pub ltb_ℤ : ℤ → ℤ → Bool
ltb_ℤ a b = ltb (pos_part a + neg_part b) (pos_part b + neg_part a)

-- The sum of two non-negative `int`s as a 32-bit register holds it.
abbrev pub add_int32 : ℕ → ℕ → ℤ
add_int32 a b = if ltb (a + b) (2 ^ 31) then pos (a + b) else sub_ℕ (a + b) (2 ^ 32)

-- a + n, and n - b, of an `int` and a non-negative one, in such a register.
abbrev pub plus_int32 : ℤ → ℕ → ℤ
plus_int32 (pos a) n = add_int32 a n
plus_int32 (negsuc a) n = sub_ℕ n (suc a)

abbrev pub minus_int32 : ℕ → ℤ → ℤ
minus_int32 n (pos b) = sub_ℕ n b
minus_int32 n (negsuc b) = add_int32 n (suc b)
