-- ===== src/Prelude/Bits.antt =====
-- Masks as arithmetic. The native `bit_and` computes at numerals alone.
use Prim.Native.Nat.{
  ℕ, zero, suc, ◌+◌, ◌*◌, ◌/◌, ◌%◌, ◌≤◌, ◌<◌, min, bit_and, digits, bit_and-bitwise,
}
use mathlib.Core.Path.{◌≡◌, refl, ap, sym, ◌∙◌}
use native.Mathlib.Omega.{arith}

-- The conjunction of two numbers, of at most `fuel` digits.
conj : (fuel left right : ℕ) → ℕ
conj fuel left right = digits (λ d. zero) min fuel left right

conj-left_zero : (fuel right : ℕ) → conj fuel 0 right ≡ 0
unfolding conj
conj-left_zero zero right = refl
conj-left_zero (suc fuel) right = refl

conj-right_zero : (fuel left : ℕ) → conj fuel left 0 ≡ 0
unfolding conj
conj-right_zero zero left = refl
conj-right_zero (suc fuel) zero = refl
conj-right_zero (suc fuel) (suc left) = omega (arith, conj-right_zero fuel (suc left / 2))

-- Digits beyond those of the left number do not count.
conj_surplus :
    (right left few many : ℕ) → few ≤ many → left ≤ few → conj many left right ≡ conj few left right
unfolding conj
conj_surplus right zero few many h fits = conj-left_zero many right ∙ sym (conj-left_zero few right)
conj_surplus right (suc left) zero many h fits = absurd (omega arith)
conj_surplus right (suc left) (suc few) zero h fits = absurd (omega arith)
conj_surplus right (suc left) (suc few) (suc many) h fits =
    let halves = conj_surplus (right / 2) (suc left / 2) few many (omega arith) (omega arith) in
    omega (arith, halves)

bit_and-conj : (fuel left right : ℕ) → left ≤ fuel → bit_and left right ≡ conj fuel left right
unfolding conj
bit_and-conj fuel left right h =
    bit_and-bitwise left right ∙ sym (conj_surplus right left left fuel h (omega arith))

-- The lowest digit, and the others.
bit_and_halves :
    (left right : ℕ)
    → bit_and left right ≡ 2 * bit_and (left / 2) (right / 2) + min (left % 2) (right % 2)
unfolding conj
bit_and_halves zero right =
    let whole : bit_and 0 right ≡ 0 = bit_and-conj 0 0 right (omega arith) in
    let half : bit_and 0 (right / 2) ≡ 0 = bit_and-conj 0 0 (right / 2) (omega arith) in
    omega (arith, whole, half)
bit_and_halves (suc left) right =
    let whole = bit_and-conj (suc left) (suc left) right (omega arith) in
    let half = bit_and-conj left (suc left / 2) (right / 2) (omega arith) in
    omega (arith, whole, half)

bit_and-zero : (a : ℕ) → bit_and a 0 ≡ 0
bit_and-zero a = bit_and-conj a a 0 (omega arith) ∙ conj-right_zero a a

bit_and-one : (a : ℕ) → bit_and a 1 ≡ a % 2
bit_and-one a =
    let digit = bit_and_halves a 1 in
    let others = bit_and-zero (a / 2) in omega (arith, digit, others)

bit_and-0x03 : (a : ℕ) → bit_and a 0x03 ≡ a % 4
bit_and-0x03 a = omega (arith, bit_and_halves a 3, bit_and-one (a / 2))

-- The mask of the three low bits.
pub bit_and-0x07 : (a : ℕ) → bit_and a 0x07 ≡ a % 8
bit_and-0x07 a = omega (arith, bit_and_halves a 7, bit_and-0x03 (a / 2))

bit_and-0x0f : (a : ℕ) → bit_and a 0x0f ≡ a % 16
bit_and-0x0f a = omega (arith, bit_and_halves a 15, bit_and-0x07 (a / 2))

-- The mask of the five low bits.
pub bit_and-0x1f : (a : ℕ) → bit_and a 0x1f ≡ a % 32
bit_and-0x1f a = omega (arith, bit_and_halves a 31, bit_and-0x0f (a / 2))

-- Masks whose lowest digit is 0.
low_zero : (x k m : ℕ) → m ≡ k * 2 → min (x % 2) (m % 2) ≡ 0
low_zero x k m e = omega arith

half_even : (k m : ℕ) → m ≡ k * 2 → m / 2 ≡ k
half_even k m e = omega arith

bit_and-even : (a k m : ℕ) → m ≡ k * 2 → bit_and a m ≡ bit_and (a / 2) k * 2
bit_and-even a k m e =
    omega
      (arith, bit_and_halves a m, ap (λ n. bit_and (a / 2) n) (half_even k m e), low_zero a k m e)

half_half : (a : ℕ) → a / 2 / 2 ≡ a / 4
half_half a = omega arith

bit_and-even_even : (a k m n : ℕ) → n ≡ k * 2 → m ≡ n * 2 → bit_and a m ≡ bit_and (a / 4) k * 4
bit_and-even_even a k m n e e' =
    omega (
      arith,
      bit_and-even a n m e',
      bit_and-even (a / 2) k n e,
      ap (λ x. bit_and x k) (half_half a),
    )

-- The mask of bit 3.
bit_and-0x02 : (a : ℕ) → bit_and a 0x02 ≡ a / 2 % 2 * 2
bit_and-0x02 a = omega (arith, bit_and-even a 1 2 refl, bit_and-one (a / 2))

pub bit_and-0x08 : (a : ℕ) → bit_and a 0x08 ≡ a / 8 % 2 * 8
bit_and-0x08 a = omega (arith, bit_and-even_even a 2 8 4 refl refl, bit_and-0x02 (a / 4))

-- The masks of the bits from 4 or 5 on, for a byte.
bit_and-0x3c : (a : ℕ) → a < 64 → bit_and a 0x3c ≡ a / 4 * 4
bit_and-0x3c a h = omega (arith, bit_and-even_even a 0x0f 0x3c 0x1e refl refl, bit_and-0x0f (a / 4))

pub bit_and-0xf0 : (a : ℕ) → a < 256 → bit_and a 0xf0 ≡ a / 16 * 16
bit_and-0xf0 a h =
    omega (arith, bit_and-even_even a 0x3c 0xf0 0x78 refl refl, bit_and-0x3c (a / 4) (omega arith))

bit_and-0x38 : (a : ℕ) → a < 64 → bit_and a 0x38 ≡ a / 8 * 8
bit_and-0x38 a h = omega (
  arith,
  bit_and-even_even a 0x0e 0x38 0x1c refl refl,
  bit_and-even (a / 4) 0x07 0x0e refl,
  bit_and-0x07 (a / 4 / 2),
)

pub bit_and-0xe0 : (a : ℕ) → a < 256 → bit_and a 0xe0 ≡ a / 32 * 32
bit_and-0xe0 a h =
    omega (arith, bit_and-even_even a 0x38 0xe0 0x70 refl refl, bit_and-0x38 (a / 4) (omega arith))
