-- ===== src/Base/Bits.antt =====
-- The binary digits of a number, and bit_and and bit_or in terms of them.
use Prim.Native.Nat.{
  ℕ, zero, suc, ◌+◌, ◌-◌, ◌*◌, ◌/◌, ◌%◌, ◌^◌, ◌≤◌, ◌<◌, min, max, digits, bit_and, bit_or,
  bit_and-bitwise, bit_or-bitwise,
}
use mathlib.Core.Path.{◌≡◌, refl, ◌∙◌, ap}
use mathlib.Core.Logic.{◌⊎◌, inl, inr}
use mathlib.Core.Bool.{Bool, true, false, not, ◌&&◌, ◌||◌}
use native.Mathlib.Omega.{arith}
use hv_frame_test.Base.Tests.{◌==◌}

-- Digit i, from the lowest on.
pub bit : ℕ → ℕ → Bool
bit zero a = a % 2 == 1
bit (suc i) a = bit i (a / 2)

-- Any count of digits that covers the first number gives the same.
digits_enough :
    (z : ℕ → ℕ) (f : ℕ → ℕ → ℕ) (n m a b : ℕ) → a ≤ n → a ≤ m → digits z f n a b ≡ digits z f m a b
digits_enough z f zero zero a b p q = refl
digits_enough z f zero (suc m) zero b p q = refl
digits_enough z f zero (suc m) (suc a) b p q = absurd (omega arith)
digits_enough z f (suc n) zero zero b p q = refl
digits_enough z f (suc n) zero (suc a) b p q = absurd (omega arith)
digits_enough z f (suc n) (suc m) zero b p q = refl
digits_enough z f (suc n) (suc m) (suc a) b p q =
    ap (λ d. d * 2 + f (suc a % 2) (b % 2))
      (digits_enough z f n m (suc a / 2) (b / 2) (omega arith) (omega arith))

bit_and_halves : (a b : ℕ) → bit_and a b ≡ bit_and (a / 2) (b / 2) * 2 + min (a % 2) (b % 2)
bit_and_halves zero b = omega (arith, bit_and-bitwise 0 b, bit_and-bitwise 0 (b / 2))
bit_and_halves (suc a) b = omega (
  arith,
  bit_and-bitwise (suc a) b,
  bit_and-bitwise (suc a / 2) (b / 2),
  digits_enough (λ d. zero) min a (suc a / 2) (suc a / 2) (b / 2) (omega arith) (omega arith),
)

bit_or_halves : (a b : ℕ) → bit_or a b ≡ bit_or (a / 2) (b / 2) * 2 + max (a % 2) (b % 2)
bit_or_halves zero b = omega (arith, bit_or-bitwise 0 b, bit_or-bitwise 0 (b / 2))
bit_or_halves (suc a) b = omega (
  arith,
  bit_or-bitwise (suc a) b,
  bit_or-bitwise (suc a / 2) (b / 2),
  digits_enough (λ d. d) max a (suc a / 2) (suc a / 2) (b / 2) (omega arith) (omega arith),
)

pub bit-bit_and : (i a b : ℕ) → bit i (bit_and a b) ≡ (bit i a && bit i b)
unfolding bit
bit-bit_and zero a b = ground (arith, bit_and_halves a b)
bit-bit_and (suc i) a b =
    let e : bit_and a b / 2 ≡ bit_and (a / 2) (b / 2) = omega (arith, bit_and_halves a b) in
    ap (bit i) e ∙ bit-bit_and i (a / 2) (b / 2)

pub bit-bit_or : (i a b : ℕ) → bit i (bit_or a b) ≡ (bit i a || bit i b)
unfolding bit
bit-bit_or zero a b = ground (arith, bit_or_halves a b)
bit-bit_or (suc i) a b =
    let e : bit_or a b / 2 ≡ bit_or (a / 2) (b / 2) = omega (arith, bit_or_halves a b) in
    ap (bit i) e ∙ bit-bit_or i (a / 2) (b / 2)

bit_and-zero : (n a : ℕ) → a ≤ n → bit_and a 0 ≡ 0
bit_and-zero n zero h = bit_and-bitwise 0 0
bit_and-zero zero (suc a) h = absurd (omega arith)
bit_and-zero (suc n) (suc a) h =
    omega (arith, bit_and_halves (suc a) 0, bit_and-zero n (suc a / 2) (omega arith))

-- A mask that ends in a digit 1.
half_mask : (a m n : ℕ) → n ≡ m * 2 + 1 → bit_and a n ≡ bit_and (a / 2) m * 2 + a % 2
half_mask a m n e =
    ap (bit_and a) e
    ∙ omega (arith, bit_and_halves a (m * 2 + 1), ap (bit_and (a / 2)) (half_lem m))
  where
    half_lem : (m : ℕ) → (m * 2 + 1) / 2 ≡ m
    half_lem m = omega arith

-- A mask of the four lowest digits, above another mask.
mask_step :
    (a m p : ℕ)
    → bit_and (a / 16) m ≡ a / 16 % p
    → bit_and a (m * 16 + 15) ≡ a / 16 % p * 16 + a % 16
mask_step a m p h =
    let e : a / 2 / 2 / 2 / 2 ≡ a / 16 = omega arith in
    omega (
      arith,
      half_mask a (m * 8 + 7) (m * 16 + 15) (omega arith),
      half_mask (a / 2) (m * 4 + 3) (m * 8 + 7) (omega arith),
      half_mask (a / 2 / 2) (m * 2 + 1) (m * 4 + 3) (omega arith),
      half_mask (a / 2 / 2 / 2) m (m * 2 + 1) (omega arith),
      ap (λ d. bit_and d m) e,
    )

pub bit_and_4095 : (a : ℕ) → bit_and a 4095 ≡ a % 4096
bit_and_4095 a =
    let e : bit_and (a / 16 / 16 / 16) 0 ≡ a / 16 / 16 / 16 % 1 =
      omega (arith, bit_and-zero (a / 16 / 16 / 16) (a / 16 / 16 / 16) (omega arith)) in
    let f : bit_and (a / 16 / 16) 15 ≡ a / 16 / 16 % 16 =
      omega (arith, mask_step (a / 16 / 16) 0 1 e) in
    let g : bit_and (a / 16) 255 ≡ a / 16 % 256 = omega (arith, mask_step (a / 16) 15 16 f) in
    omega (arith, mask_step a 255 256 g)

-- ~ on w bits.
pub bit-complement : (w i m : ℕ) → i < w → m < 2 ^ w → bit i (2 ^ w - 1 - m) ≡ not (bit i m)
unfolding bit
bit-complement zero i m h lt = absurd (omega arith)
bit-complement (suc w) zero m h lt = ground arith
bit-complement (suc w) (suc i) m h lt =
    let e : (2 ^ suc w - 1 - m) / 2 ≡ 2 ^ w - 1 - m / 2 = omega arith in
    ap (bit i) e ∙ bit-complement w i (m / 2) (omega arith) (omega arith)

-- A number of w bits with a digit 1 or none.
pub bit_some : (w a : ℕ) → a < 2 ^ w → (a ≡ 0) ⊎ ((i : ℕ) × (i < w) × (bit i a ≡ true))
unfolding bit
bit_some zero a lt = inl (omega arith)
bit_some (suc w) a lt = elim (bit_some w (a / 2) (omega arith)) [
  | inr (i, h, e) ↦ inr (suc i, omega arith, e)
  | inl e ↦ lowest (a % 2) refl e
]
  where
    lowest : (d : ℕ) → a % 2 ≡ d → a / 2 ≡ 0 → (a ≡ 0) ⊎ ((i : ℕ) × (i < suc w) × (bit i a ≡ true))
    lowest zero h e = inl (omega arith)
    lowest (suc zero) h e = inr (0, omega arith, rw h refl)
    lowest (suc (suc d)) h e = absurd (omega arith)

bit_and-le_fuel : (n a b : ℕ) → a ≤ n → bit_and a b ≤ b
bit_and-le_fuel n zero b h = omega (arith, bit_and-bitwise 0 b)
bit_and-le_fuel zero (suc a) b h = absurd (omega arith)
bit_and-le_fuel (suc n) (suc a) b h =
    omega (arith, bit_and_halves (suc a) b, bit_and-le_fuel n (suc a / 2) (b / 2) (omega arith))

pub bit_and-le : (a b : ℕ) → bit_and a b ≤ b
bit_and-le a b = bit_and-le_fuel a a b (omega arith)

pub bit_zero : (i : ℕ) → bit i 0 ≡ false
unfolding bit
bit_zero zero = refl
bit_zero (suc i) = bit_zero i
