-- ===== src/Common/Bytes.antt =====
-- Byte slices as lists of numbers, and the fixed-width little-endian integers of encoding/binary.
use obconnector_go.Common.Tests.{◌==◌}
use obconnector_go.Common.Lists.{length, All, take, drop, get_or}
use obconnector_go.Common.Bits.{bit_or_disjoint}
use Prim.Native.Nat.{ℕ, zero, suc, ◌+◌, ◌*◌, ◌/◌, ◌%◌, ◌^◌, ◌≤◌, ◌<◌, bit_or}
use mathlib.Core.Path.{◌≡◌, refl, ap}
use mathlib.Core.Bool.{Bool, true, false, ◌&&◌}
use mathlib.Core.List.{List, [], ◌∷◌}
use Prim.Native.Char.{code}
use Prim.Native.String.{String}
use native.Mathlib.Nat.{pow-suc}
use native.Mathlib.Omega.{arith}

abbrev pub Bytes : Type 0
Bytes = List ℕ

abbrev pub IsByte : ℕ → Type 0
IsByte b = b < 256

-- The code points of a text: its bytes, for a text in ASCII.
abbrev pub codes : String → Bytes
codes String.[] = []
codes (String.◌∷◌ c s) = code c ∷ codes s

-- `binary.LittleEndian.AppendUintN(nil, v)`, k = N / 8 bytes.
unfoldable pub le_bytes : ℕ → ℕ → Bytes
le_bytes zero v = []
le_bytes (suc k) v = (v % 256) ∷ le_bytes k (v / 256)

-- `binary.LittleEndian.UintN(bs)` of a slice of N / 8 bytes.
unfoldable pub le_value : Bytes → ℕ
le_value [] = 0
le_value (b ∷ bs) = b + 256 * le_value bs

-- `uint32(b0) | uint32(b1)<<8 | uint32(b2)<<16`
unfoldable pub or_value : ℕ → ℕ → ℕ → ℕ
or_value b0 b1 b2 = bit_or (bit_or b0 (b1 * 2 ^ 8)) (b2 * 2 ^ 16)

-- `byte(n), byte(n>>8), byte(n>>16)`
unfoldable pub three_bytes : ℕ → Bytes
three_bytes n = (n % 256) ∷ (n / 2 ^ 8 % 256) ∷ (n / 2 ^ 16 % 256) ∷ []

unfoldable pub beq_bytes : Bytes → Bytes → Bool
beq_bytes [] [] = true
beq_bytes [] (y ∷ ys) = false
beq_bytes (x ∷ xs) [] = false
beq_bytes (x ∷ xs) (y ∷ ys) = x == y && beq_bytes xs ys

pub beq_bytes_refl : (xs : Bytes) → beq_bytes xs xs ≡ true
unfolding beq_bytes
beq_bytes_refl [] = refl
beq_bytes_refl (x ∷ xs) = ground (arith, beq_bytes_refl xs)

pub length-le_bytes : (k v : ℕ) → length (le_bytes k v) ≡ k
unfolding le_bytes
length-le_bytes zero v = refl
length-le_bytes (suc k) v = ap suc (length-le_bytes k (v / 256))

pub le_bytes-IsByte : (k v : ℕ) → All IsByte (le_bytes k v)
unfolding le_bytes
le_bytes-IsByte zero v = tt
le_bytes-IsByte (suc k) v = (omega arith, le_bytes-IsByte k (v / 256))

pub le_value-le_bytes : (k v : ℕ) → v < 256 ^ k → le_value (le_bytes k v) ≡ v
unfolding le_bytes le_value
le_value-le_bytes zero v h = omega arith
le_value-le_bytes (suc k) v h =
    omega (arith, pow-suc 256 k, le_value-le_bytes k (v / 256) (omega (arith, pow-suc 256 k)))

pub or_value_lem :
    (b0 b1 b2 : ℕ) → IsByte b0 → IsByte b1 → or_value b0 b1 b2 ≡ b0 + b1 * 256 + b2 * 65536
unfolding or_value
or_value_lem b0 b1 b2 h0 h1 = omega (
  arith,
  bit_or_disjoint 8 b0 b1 (omega arith),
  ap (λ (t : ℕ). bit_or t (b2 * 2 ^ 16)) (bit_or_disjoint 8 b0 b1 (omega arith)),
  bit_or_disjoint 16 (b0 + b1 * 256) b2 (omega arith),
)

pub le_value-lt : (k : ℕ) (bs : Bytes) → length bs ≤ k → All IsByte bs → le_value bs < 256 ^ k
unfolding le_value
le_value-lt zero [] h a = omega arith
le_value-lt zero (b ∷ bs) h a = absurd (omega arith)
le_value-lt (suc k) [] h a = omega (arith, pow-suc 256 k, le_value-lt k [] (omega arith) tt)
le_value-lt (suc k) (b ∷ bs) h (p, a) =
    omega (arith, pow-suc 256 k, le_value-lt k bs (omega arith) a)

pub All-take : (n : ℕ) (bs : Bytes) → All IsByte bs → All IsByte (take n bs)
All-take zero bs a = tt
All-take (suc n) [] a = tt
All-take (suc n) (b ∷ bs) (p, a) = (p, All-take n bs a)

pub All-drop : (n : ℕ) (bs : Bytes) → All IsByte bs → All IsByte (drop n bs)
All-drop zero bs a = a
All-drop (suc n) [] a = tt
All-drop (suc n) (b ∷ bs) (p, a) = All-drop n bs a

pub All-get_or : (n : ℕ) (bs : Bytes) → All IsByte bs → get_or bs n 0 < 256
All-get_or n [] a = omega arith
All-get_or zero (b ∷ bs) (p, a) = p
All-get_or (suc n) (b ∷ bs) (p, a) = All-get_or n bs a
