-- ===== src/Common/Bitmaps.antt =====
-- Bitmaps: lists of bits spread over bytes, the first bit lowest.
use obconnector_go.Common.Tests.{◌==◌, if◌then◌else◌, ltb, ltb→lt, ltb-false→le, Bool-cases}
use obconnector_go.Common.Lists.{get_or, length, replicate}
use obconnector_go.Common.Bytes.{Bytes, le_bytes}
use obconnector_go.Common.Bits.{bit_and-pow, bit_or_disjoint}
use Prim.Native.Nat.{ℕ, zero, suc, ◌+◌, ◌-◌, ◌*◌, ◌/◌, ◌%◌, ◌^◌, ◌≤◌, ◌<◌, bit_and, bit_or}
use mathlib.Core.Path.{◌≡◌, refl, ap, ap₂, sym, ◌∙◌}
use mathlib.Core.Logic.{inl, inr}
use mathlib.Core.Bool.{Bool, true, false, not}
use mathlib.Core.List.{List, [], ◌∷◌, ◌++◌}
use native.Mathlib.Nat.{
  pow-suc, one-le-pow, pow-le-pow_right, div-div-eq-div-mul, mul_comm, zero-div,
}
use native.Mathlib.Omega.{arith}

abbrev pub of_bit : Bool → ℕ
of_bit b = if b then 1 else 0

abbrev pub of_bits : List Bool → ℕ
of_bits [] = 0
of_bits (b ∷ bs) = of_bit b + 2 * of_bits bs

-- The bytes of a bitmap of `n` bytes.
abbrev pub bitmap : ℕ → List Bool → Bytes
bitmap n bs = le_bytes n (of_bits bs)

abbrev pub bit_at : List Bool → ℕ → Bool
bit_at bs i = get_or bs i false

halved : (v p : ℕ) → v / 2 ^ suc p ≡ v / 2 / 2 ^ p
halved v p =
    rw (pow-suc 2 p)
      (ap (λ (t : ℕ). v / t) (mul_comm (2 ^ p) 2) ∙ sym (div-div-eq-div-mul v 2 (2 ^ p)))

of_bits-digit : (bs : List Bool) (p : ℕ) → of_bits bs / 2 ^ p % 2 ≡ of_bit (bit_at bs p)
of_bits-digit [] p = ap (λ (t : ℕ). t % 2) (zero-div (2 ^ p))
of_bits-digit (true ∷ bs) zero = omega arith
of_bits-digit (false ∷ bs) zero = omega arith
of_bits-digit (b ∷ bs) (suc p) =
    ap (λ (t : ℕ). t % 2) (halved (of_bit b + 2 * of_bits bs) p)
    ∙ ap (λ (t : ℕ). t / 2 ^ p % 2) (half b (of_bits bs))
    ∙ of_bits-digit bs p
  where
    half : (b : Bool) (r : ℕ) → (of_bit b + 2 * r) / 2 ≡ r
    half true r = omega arith
    half false r = omega arith

-- The bits of one byte.
low_digit : (v p : ℕ) → p < 8 → v % 256 / 2 ^ p % 2 ≡ v / 2 ^ p % 2
low_digit v zero h = omega arith
low_digit v (suc zero) h = omega arith
low_digit v (suc (suc zero)) h = omega arith
low_digit v (suc (suc (suc zero))) h = omega arith
low_digit v (suc (suc (suc (suc zero)))) h = omega arith
low_digit v (suc (suc (suc (suc (suc zero))))) h = omega arith
low_digit v (suc (suc (suc (suc (suc (suc zero)))))) h = omega arith
low_digit v (suc (suc (suc (suc (suc (suc (suc zero))))))) h = omega arith
low_digit v (suc (suc (suc (suc (suc (suc (suc (suc p)))))))) h = absurd (omega arith)

pow_eight : (q : ℕ) → 2 ^ (8 + q) ≡ 2 ^ q * 256
pow_eight zero = refl
pow_eight (suc q) =
    let next : 8 + suc q ≡ suc (8 + q) = omega arith in
    ap (λ (t : ℕ). 2 ^ t) next ∙ omega (arith, pow_eight q, pow-suc 2 q, pow-suc 2 (8 + q))

byte_shift : (v q : ℕ) → v / 2 ^ (8 + q) ≡ v / 256 / 2 ^ q
byte_shift v q =
    rw (pow_eight q)
      (ap (λ (t : ℕ). v / t) (mul_comm (2 ^ q) 256) ∙ sym (div-div-eq-div-mul v 256 (2 ^ q)))

first-byte :
    (n v p : ℕ)
    → p < 8
    → get_or (v % 256 ∷ le_bytes n (v / 256)) (p / 8) 0 / 2 ^ (p % 8) % 2 ≡ v / 2 ^ p % 2
first-byte n v p l =
    let zeroth : p / 8 ≡ 0 = omega arith in
    let same : p % 8 ≡ p = omega arith in rw (zeroth, same) (low_digit v p l)

later-byte :
    (n v p q : ℕ)
    → p ≡ 8 + q
    → get_or (le_bytes n (v / 256)) (q / 8) 0 / 2 ^ (q % 8) % 2 ≡ v / 256 / 2 ^ q % 2
    → get_or (v % 256 ∷ le_bytes n (v / 256)) (p / 8) 0 / 2 ^ (p % 8) % 2 ≡ v / 2 ^ p % 2
later-byte n v p q e rest =
    let next : p / 8 ≡ suc (q / 8) = omega arith in
    let same : p % 8 ≡ q % 8 = omega arith in rw (next, same, e, byte_shift v q) rest

byte_digit :
    (n v p : ℕ) → p < 8 * n → get_or (le_bytes n v) (p / 8) 0 / 2 ^ (p % 8) % 2 ≡ v / 2 ^ p % 2
unfolding le_bytes
byte_digit zero v p h = absurd (omega arith)
byte_digit (suc n) v p h = elim (Bool-cases (ltb p 8)) [
  | inl e ↦ first-byte n v p (ltb→lt p 8 e)
  | inr e ↦
      later-byte n v p (p - 8) (omega (arith, ltb-false→le p 8 e))
        (byte_digit n (v / 256) (p - 8) (omega (arith, ltb-false→le p 8 e)))
]

is_set : (b k : ℕ) (c : Bool) → b / 2 ^ k % 2 ≡ of_bit c → not (bit_and b (2 ^ k) == 0) ≡ c
is_set b k true h =
    let one = bit_and-pow k b in
    let some_bit = one-le-pow k 2 (omega arith) in rw (one, h) (ground arith)
is_set b k false h = let none = bit_and-pow k b in rw (none, h) (ground arith)

-- The bits are found where the code looks for them.
pub bitmap-bit :
    (n : ℕ) (bs : List Bool) (p : ℕ)
    → p < 8 * n
    → not (bit_and (get_or (bitmap n bs) (p / 8) 0) (2 ^ (p % 8)) == 0) ≡ bit_at bs p
bitmap-bit n bs p h =
    is_set (get_or (bitmap n bs) (p / 8) 0) (p % 8) (bit_at bs p)
      (byte_digit n (of_bits bs) p h ∙ of_bits-digit bs p)

-- Bits set one after the other make up the bitmap.
pub of_bits-lt : (bs : List Bool) → of_bits bs < 2 ^ length bs
of_bits-lt [] = omega arith
of_bits-lt (true ∷ bs) = omega (arith, of_bits-lt bs, pow-suc 2 (length bs))
of_bits-lt (false ∷ bs) = omega (arith, of_bits-lt bs, pow-suc 2 (length bs))

pub of_bits-append :
    (bs : List Bool) (b : Bool) → of_bits (bs ++ b ∷ []) ≡ of_bits bs + of_bit b * 2 ^ length bs
of_bits-append [] b = omega arith
of_bits-append (c ∷ bs) true = omega (arith, of_bits-append bs true, pow-suc 2 (length bs))
of_bits-append (c ∷ bs) false = omega (arith, of_bits-append bs false, pow-suc 2 (length bs))

pub le_bytes-zero : (n : ℕ) → le_bytes n 0 ≡ replicate n 0
unfolding le_bytes
le_bytes-zero zero = refl
le_bytes-zero (suc n) = ap (λ (bs : Bytes). 0 ∷ bs) (le_bytes-zero n)

-- `bs[i/8] |= 1 << (i%8)`, on the bytes from the one at hand on.
unfoldable pub set_bit : Bytes → ℕ → Bytes
set_bit [] i = []
set_bit (b ∷ bs) i =
    let rest = set_bit bs (i - 8) in if ltb i 8 then bit_or b (2 ^ i) ∷ bs else b ∷ rest

byte_power : (i : ℕ) → i < 8 → 2 ^ i ≤ 2 ^ 7
byte_power i h = pow-le-pow_right (omega arith) {i = i} {j = 7} (omega arith)

first_byte : (v i : ℕ) → i < 8 → v < 2 ^ i → bit_or (v % 256) (2 ^ i) ≡ (v + 2 ^ i) % 256
first_byte v i h l =
    let small = byte_power i h in
    let once : 1 * 2 ^ i ≡ 2 ^ i = omega arith in
    let low : v % 256 ≡ v = omega arith in
    ap₂ bit_or low (sym once) ∙ omega (arith, bit_or_disjoint i v 1 l)

set_first :
    (n v i : ℕ)
    → i < 8
    → v < 2 ^ i
    → bit_or (v % 256) (2 ^ i) ∷ le_bytes n (v / 256)
      ≡ (v + 2 ^ i) % 256 ∷ le_bytes n ((v + 2 ^ i) / 256)
set_first n v i h l =
    let small = byte_power i h in
    let rest : v / 256 ≡ (v + 2 ^ i) / 256 = omega arith in
    ap₂ (λ (b w : ℕ). b ∷ le_bytes n w) (first_byte v i h l) rest

power-later : (i : ℕ) → 8 ≤ i → 2 ^ i ≡ 2 ^ (i - 8) * 256
power-later i h =
    let split : i ≡ 8 + (i - 8) = omega arith in ap (λ (t : ℕ). 2 ^ t) split ∙ pow_eight (i - 8)

later-fits : (v i : ℕ) → 8 ≤ i → v < 2 ^ i → v / 256 < 2 ^ (i - 8)
later-fits v i h l = omega (arith, power-later i h)

set_later :
    (n v i : ℕ)
    → 8 ≤ i
    → v < 2 ^ i
    → set_bit (le_bytes n (v / 256)) (i - 8) ≡ le_bytes n (v / 256 + 2 ^ (i - 8))
    → v % 256 ∷ set_bit (le_bytes n (v / 256)) (i - 8)
      ≡ (v + 2 ^ i) % 256 ∷ le_bytes n ((v + 2 ^ i) / 256)
set_later n v i h l ih =
    let same : v % 256 ≡ (v + 2 ^ i) % 256 = omega (arith, power-later i h) in
    let rest : v / 256 + 2 ^ (i - 8) ≡ (v + 2 ^ i) / 256 = omega (arith, power-later i h) in
    ap₂ (λ (b : ℕ) (bs : Bytes). b ∷ bs) same (ih ∙ ap (le_bytes n) rest)

pub set_bit-le_bytes :
    (n v i : ℕ) → i < 8 * n → v < 2 ^ i → set_bit (le_bytes n v) i ≡ le_bytes n (v + 2 ^ i)
unfolding set_bit le_bytes
set_bit-le_bytes zero v i h l = absurd (omega arith)
set_bit-le_bytes (suc n) v i h l = elim (Bool-cases (ltb i 8)) [
  | inl e ↦ rw e (set_first n v i (ltb→lt i 8 e) l)
  | inr e ↦ rw e (
      set_later n v i (ltb-false→le i 8 e) l (
        set_bit-le_bytes n (v / 256) (i - 8) (omega (arith, ltb-false→le i 8 e))
          (later-fits v i (ltb-false→le i 8 e) l)))
]
