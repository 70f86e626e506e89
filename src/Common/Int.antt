-- ===== src/Common/Int.antt =====
-- Go's signed integers: the values that the code computes stay far below 2^63, so they are the
-- integers over the native numbers. `negsuc n` is -(n + 1).
use Prim.Native.Nat.{ℕ, suc, ◌-◌, ◌*◌, ◌%◌, ◌^◌}
use mathlib.Core.Bool.{Bool}
use obconnector_go.Common.Tests.{ltb, if◌then◌else◌}

pub data ℤ : Type 0 where
  pos : ℕ → ℤ
  negsuc : ℕ → ℤ

abbrev pub pos_part : ℤ → ℕ
pos_part (pos n) = n
pos_part (negsuc n) = 0

abbrev pub neg_part : ℤ → ℕ
neg_part (pos n) = 0
neg_part (negsuc n) = suc n

-- -n
abbrev pub neg_ℕ : ℕ → ℤ
neg_ℕ n = if ltb 0 n then negsuc (n - 1) else pos 0

abbrev pub nat_abs : ℤ → ℕ
nat_abs (pos n) = n
nat_abs (negsuc n) = suc n

abbrev pub is_neg : ℤ → Bool
is_neg a = ltb 0 (neg_part a)

-- A word of `w` bits read as a two's complement integer: int8(b) is `signed 8 b`.
abbrev pub signed : ℕ → ℕ → ℤ
signed w b = if ltb (2 * b) (2 ^ w) then pos b else negsuc (2 ^ w - b - 1)

-- The word of `w` bits of an integer: uint64(v) is `word 64 v`.
abbrev pub word : ℕ → ℤ → ℕ
word w (pos n) = n % 2 ^ w
word w (negsuc n) = 2 ^ w - 1 - n % 2 ^ w
