-- ===== src/Base/Int.antt =====
-- Signed integers over the native numbers, under the library's names, and C's conversions.
use Prim.Native.Nat.{ℕ, suc, ◌-◌, ◌%◌, ◌^◌}
use mathlib.Core.Bool.{Bool, true, false}
use p4runtime_grpcpp.Base.Tests.{ltb, if◌then◌else◌}

-- `negsuc n` is -(n + 1).
pub data ℤ : Type 0 where
  pos : ℕ → ℤ
  negsuc : ℕ → ℤ

abbrev pub is_negative : ℤ → Bool
is_negative (pos n) = false
is_negative (negsuc n) = true

-- The value, or 0 for a negative one.
abbrev pub pos_part : ℤ → ℕ
pos_part (pos n) = n
pos_part (negsuc n) = 0

-- `(uint32_t)i` for an `int` i.
abbrev pub to_uint32 : ℤ → ℕ
to_uint32 (pos n) = n % 2 ^ 32
to_uint32 (negsuc n) = 2 ^ 32 - suc (n % 2 ^ 32)

-- `(int)w` for a `size_t` w: the low 32 bits in two's complement.
abbrev pub to_int32 : ℕ → ℤ
to_int32 w = let b = w % 2 ^ 32 in if ltb b (2 ^ 31) then pos b else negsuc (2 ^ 32 - suc b)
