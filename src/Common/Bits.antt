-- ===== src/Common/Bits.antt =====
-- Facts about the native bit operations at variables, from their digit recursion.
use Prim.Native.Nat.{ℕ, zero, suc, ◌+◌, ◌*◌, ◌/◌, ◌%◌, ◌^◌, ◌≤◌, ◌<◌, min, max}
use Prim.Native.Nat.{
  bit_and, bit_or, bit_xor, digits, differ, bit_and-bitwise, bit_or-bitwise, bit_xor-bitwise,
  bitwise,
}
use mathlib.Core.Path.{◌≡◌, refl, sym, ◌∙◌, ap}
use native.Mathlib.Omega.{arith}
use native.Mathlib.Nat.{pow-suc, div-div-eq-div-mul, mul_comm, mul_assoc}

-- The recursion over binary digits that all three operations share: `tail` is what becomes of the
-- second number once the first is used up, `join` puts two digits together. The depth is no matter
-- as long as it covers the first number.
module _ (tail : ℕ → ℕ) (join : ℕ → ℕ → ℕ) where
  digits_depth : (d e x y : ℕ) → x ≤ d → x ≤ e → digits tail join d x y ≡ digits tail join e x y
  digits_depth zero zero x y hd he = refl
  digits_depth zero (suc e) zero y hd he = refl
  digits_depth (suc d) zero zero y hd he = refl
  digits_depth (suc d) (suc e) zero y hd he = refl
  digits_depth zero e (suc x) y hd he = absurd (omega arith)
  digits_depth d zero (suc x) y hd he = absurd (omega arith)
  digits_depth (suc d) (suc e) (suc x) y hd he =
      let inner = digits_depth d e (suc x / 2) (y / 2) (omega arith) (omega arith) in
      ap (λ (t : ℕ). t * 2 + join (suc x % 2) (y % 2)) inner

  -- One digit off the front, for a first number that has one.
  first_digit :
      (x y : ℕ)
      → bitwise tail join (suc x) y
        ≡ bitwise tail join (suc x / 2) (y / 2) * 2 + join (suc x % 2) (y % 2)
  first_digit x y =
      ap (λ (t : ℕ). t * 2 + join (suc x % 2) (y % 2))
        (digits_depth x (suc x / 2) (suc x / 2) (y / 2) (omega arith) (omega arith))

pub zero-bit_or : (y : ℕ) → bit_or 0 y ≡ y
zero-bit_or y = bit_or-bitwise 0 y

pub bit_or_step : (x y : ℕ) → bit_or x y ≡ bit_or (x / 2) (y / 2) * 2 + max (x % 2) (y % 2)
bit_or_step zero y = omega (arith, zero-bit_or y, zero-bit_or (y / 2))
bit_or_step (suc x) y =
    bit_or-bitwise (suc x) y
    ∙ first_digit (λ t. t) max x y
    ∙ ap (λ (t : ℕ). t * 2 + max (suc x % 2) (y % 2)) (sym (bit_or-bitwise (suc x / 2) (y / 2)))

bit_or-double : (a m : ℕ) → bit_or a (m * 2) ≡ bit_or (a / 2) m * 2 + a % 2
bit_or-double a m =
    let e : m * 2 / 2 ≡ m = omega arith in
    omega (arith, bit_or_step a (m * 2), ap (λ (t : ℕ). bit_or (a / 2) t) e)

pow_double : (k b : ℕ) → b * 2 ^ suc k ≡ b * 2 ^ k * 2
pow_double k b = rw (pow-suc 2 k) (omega arith)

-- Numbers with no bit in common: `a | b << k` is a sum.
pub bit_or_disjoint : (k a b : ℕ) → a < 2 ^ k → bit_or a (b * 2 ^ k) ≡ a + b * 2 ^ k
bit_or_disjoint zero zero b h = omega (arith, zero-bit_or (b * 1))
bit_or_disjoint zero (suc a) b h = absurd (omega arith)
bit_or_disjoint (suc k) a b h = rw (pow_double k b) (
    omega (
      arith,
      pow-suc 2 k,
      bit_or-double a (b * 2 ^ k),
      bit_or_disjoint k (a / 2) b (omega (arith, pow-suc 2 k)),
    ))

zero-bit_and : (y : ℕ) → bit_and 0 y ≡ 0
zero-bit_and y = bit_and-bitwise 0 y

pub bit_and_step : (x y : ℕ) → bit_and x y ≡ bit_and (x / 2) (y / 2) * 2 + min (x % 2) (y % 2)
bit_and_step zero y = omega (arith, zero-bit_and y, zero-bit_and (y / 2))
bit_and_step (suc x) y =
    bit_and-bitwise (suc x) y
    ∙ first_digit (λ t. 0) min x y
    ∙ ap (λ (t : ℕ). t * 2 + min (suc x % 2) (y % 2)) (sym (bit_and-bitwise (suc x / 2) (y / 2)))

bit_and-le_depth : (d x y : ℕ) → y ≤ d → x ≤ d → bit_and x y ≤ y
bit_and-le_depth zero zero y hy hx = omega (arith, zero-bit_and y)
bit_and-le_depth zero (suc x) y hy hx = absurd (omega arith)
bit_and-le_depth (suc d) zero y hy hx = omega (arith, zero-bit_and y)
bit_and-le_depth (suc d) (suc x) y hy hx = omega (
  arith,
  bit_and_step (suc x) y,
  bit_and-le_depth d (suc x / 2) (y / 2) (omega arith) (omega arith),
)

-- A mask bounds the result.
pub bit_and-le : (x y : ℕ) → bit_and x y ≤ y
bit_and-le x y = bit_and-le_depth (x + y) x y (omega arith) (omega arith)

bit_and-one : (x : ℕ) → bit_and x 1 ≡ x % 2
bit_and-one x = omega (arith, bit_and_step x 1, bit_and-le (x / 2) 0)

bit_and-double : (a m : ℕ) → bit_and a (m * 2) ≡ bit_and (a / 2) m * 2
bit_and-double a m =
    let e : m * 2 / 2 ≡ m = omega arith in
    omega (arith, bit_and_step a (m * 2), ap (λ (t : ℕ). bit_and (a / 2) t) e)

halves : (a m : ℕ) → a / 2 / m ≡ a / (m * 2)
halves a m = div-div-eq-div-mul a 2 m ∙ ap (λ (t : ℕ). a / t) (mul_comm 2 m)

-- A mask of one bit.
pub bit_and-pow : (k a : ℕ) → bit_and a (2 ^ k) ≡ a / 2 ^ k % 2 * 2 ^ k
bit_and-pow zero a = omega (arith, bit_and-one a)
bit_and-pow (suc k) a = rw (pow-suc 2 k) (
    bit_and-double a (2 ^ k)
    ∙ rw (bit_and-pow k (a / 2))
        (rw (halves a (2 ^ k)) (mul_assoc (a / (2 ^ k * 2) % 2) (2 ^ k) 2)))

pub differ-lt_two : (a b : ℕ) → a < 2 → b < 2 → differ a b < 2
differ-lt_two zero zero h k = omega arith
differ-lt_two zero (suc b) h k = omega arith
differ-lt_two (suc a) zero h k = omega arith
differ-lt_two (suc a) (suc b) h k = ground arith

pub zero-bit_xor : (b : ℕ) → bit_xor 0 b ≡ b
zero-bit_xor b = bit_xor-bitwise 0 b

differ-zero_left : (b : ℕ) → b < 2 → differ 0 b ≡ b
differ-zero_left zero h = refl
differ-zero_left (suc b) h = ground arith

pub bit_xor_step : (x y : ℕ) → bit_xor x y ≡ bit_xor (x / 2) (y / 2) * 2 + differ (x % 2) (y % 2)
bit_xor_step zero y =
    omega (arith, zero-bit_xor y, zero-bit_xor (y / 2), differ-zero_left (y % 2) (omega arith))
bit_xor_step (suc x) y =
    bit_xor-bitwise (suc x) y
    ∙ first_digit (λ t. t) differ x y
    ∙ ap (λ (t : ℕ). t * 2 + differ (suc x % 2) (y % 2)) (sym (bit_xor-bitwise (suc x / 2) (y / 2)))

-- The result is no wider than the operands.
pub bit_xor-lt : (k a b : ℕ) → a < 2 ^ k → b < 2 ^ k → bit_xor a b < 2 ^ k
bit_xor-lt zero zero zero h g = omega arith
bit_xor-lt zero zero (suc b) h g = absurd (omega arith)
bit_xor-lt zero (suc a) b h g = absurd (omega arith)
bit_xor-lt (suc k) a b h g = omega (
  arith,
  pow-suc 2 k,
  bit_xor_step a b,
  differ-lt_two (a % 2) (b % 2) (omega arith) (omega arith),
  bit_xor-lt k (a / 2) (b / 2) (omega (arith, pow-suc 2 k)) (omega (arith, pow-suc 2 k)),
)
