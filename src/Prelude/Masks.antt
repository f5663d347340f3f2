-- ===== src/Prelude/Masks.antt =====
-- `bit_and` and `bit_or` by digits, and what they do with a network mask.
use Prim.Native.Nat.{
  ℕ, zero, suc, ◌+◌, ◌-◌, ◌*◌, ◌/◌, ◌%◌, ◌^◌, ◌≤◌, ◌<◌, min, max, bit_and, bit_or, digits,
  bit_and-bitwise, bit_or-bitwise,
}
use mathlib.Core.Path.{◌≡◌, refl, ap, ap₂, sym, ◌∙◌}
use native.Mathlib.Omega.{arith}
use native.Mathlib.Nat.{one-mul, div-one, add-zero, div-div-eq-div-mul}
use scholar_vpn.Prelude.Bits.{pow_pos, pow_double}

-- The digit recursion does not depend on its fuel, once there is enough.
module _ (z : ℕ → ℕ) (f : ℕ → ℕ → ℕ) where
  digits-zero : (k b : ℕ) → digits z f k 0 b ≡ z b
  digits-zero zero b = refl
  digits-zero (suc k) b = refl

  digits_enough : (k l a b : ℕ) → a ≤ k → a ≤ l → digits z f k a b ≡ digits z f l a b
  digits_enough k l zero b h g = digits-zero k b ∙ sym (digits-zero l b)
  digits_enough zero l (suc a) b h g = absurd (omega arith)
  digits_enough (suc k) zero (suc a) b h g = absurd (omega arith)
  digits_enough (suc k) (suc l) (suc a) b h g =
      ap (λ (t : ℕ). t * 2 + f (suc a % 2) (b % 2))
        (digits_enough k l (suc a / 2) (b / 2) (omega arith) (omega arith))

  -- The lowest digit, and the rest without fuel.
  lowest :
      (a b : ℕ)
      → digits z f (suc a) (suc a) b
        ≡ f (suc a % 2) (b % 2) + 2 * digits z f (suc a / 2) (suc a / 2) (b / 2)
  lowest a b =
      omega (arith, digits_enough a (suc a / 2) (suc a / 2) (b / 2) (omega arith) (omega arith))

pub bit_and_step : (a b : ℕ) → bit_and a b ≡ min (a % 2) (b % 2) + 2 * bit_and (a / 2) (b / 2)
bit_and_step zero b = simp bit_and-bitwise (omega arith)
bit_and_step (suc a) b = simp bit_and-bitwise (lowest (λ y. 0) min a b)

and_zero_below : (n a : ℕ) → a ≤ n → bit_and a 0 ≡ 0
and_zero_below n zero h = refl
and_zero_below zero (suc a) h = absurd (omega arith)
and_zero_below (suc n) (suc a) h =
    omega (arith, bit_and_step (suc a) 0, and_zero_below n (suc a / 2) (omega arith))

pub bit_and-zero : (a : ℕ) → bit_and a 0 ≡ 0
bit_and-zero a = and_zero_below a a (omega arith)

pub bit_or_step : (a b : ℕ) → bit_or a b ≡ max (a % 2) (b % 2) + 2 * bit_or (a / 2) (b / 2)
bit_or_step zero b = simp bit_or-bitwise (omega arith)
bit_or_step (suc a) b = simp bit_or-bitwise (lowest (λ y. y) max a b)

or_zero_below : (n a : ℕ) → a ≤ n → bit_or a 0 ≡ a
or_zero_below n zero h = refl
or_zero_below zero (suc a) h = absurd (omega arith)
or_zero_below (suc n) (suc a) h =
    omega (arith, bit_or_step (suc a) 0, or_zero_below n (suc a / 2) (omega arith))

pub bit_or-zero : (a : ℕ) → bit_or a 0 ≡ a
bit_or-zero a = or_zero_below a a (omega arith)

-- A number of `n` bits is kept whole by `n` ones.
pub bit_and-ones : (n a : ℕ) → a < 2 ^ n → bit_and a (2 ^ n - 1) ≡ a
bit_and-ones zero zero h = refl
bit_and-ones zero (suc a) h = absurd (omega arith)
bit_and-ones (suc n) a h = omega (
  arith,
  bit_and_step a (2 ^ suc n - 1),
  pow_double n,
  pow_pos n,
  halves,
  bit_and-ones n (a / 2) (omega (arith, pow_double n)),
)
  where
    halves : bit_and (a / 2) ((2 ^ suc n - 1) / 2) ≡ bit_and (a / 2) (2 ^ n - 1)
    halves = ap (bit_and (a / 2)) (omega (arith, pow_double n, pow_pos n))

-- `n` ones above `k` zeros clear the lowest `k` bits.
pub bit_and-mask :
    (k n a : ℕ) → a < 2 ^ k * 2 ^ n → bit_and a (2 ^ k * (2 ^ n - 1)) ≡ 2 ^ k * (a / 2 ^ k)
bit_and-mask zero n a h =
    rw (one-mul (2 ^ n - 1), one-mul (a / 1), div-one a) (bit_and-ones n a (omega arith))
bit_and-mask (suc k) n a h = omega (
  arith,
  bit_and_step a (2 ^ suc k * (2 ^ n - 1)),
  ap (bit_and (a / 2)) (half k),
  bit_and-mask k n (a / 2) (omega (arith, ap (λ (t : ℕ). t * 2 ^ n) (pow_double k))),
  quarter k,
  pow_double k,
  ap (λ (t : ℕ). t * (a / 2 / 2 ^ k)) (pow_double k),
  ap (λ (t : ℕ). t * (2 ^ n - 1)) (pow_double k),
)
  where
    half : (k : ℕ) → 2 ^ suc k * (2 ^ n - 1) / 2 ≡ 2 ^ k * (2 ^ n - 1)
    half k = rw (pow_double k) (omega arith)

    quarter : (k : ℕ) → 2 ^ suc k * (a / 2 ^ suc k) ≡ 2 ^ suc k * (a / 2 / 2 ^ k)
    quarter k = rw (pow_double k, div-div-eq-div-mul a 2 (2 ^ k))

-- `k` ones fill the lowest `k` bits of a multiple of 2 ^ k.
pub bit_or-fill : (k m : ℕ) → bit_or (2 ^ k * m) (2 ^ k - 1) ≡ 2 ^ k * m + (2 ^ k - 1)
bit_or-fill zero m = rw (one-mul m, add-zero m) (bit_or-zero m)
bit_or-fill (suc k) m = omega (
  arith,
  bit_or_step (2 ^ suc k * m) (2 ^ suc k - 1),
  ap₂ bit_or (half k) (half_ones k),
  bit_or-fill k m,
  pow_double k,
  pow_pos k,
  ap (λ (t : ℕ). t * m) (pow_double k),
)
  where
    half : (k : ℕ) → 2 ^ suc k * m / 2 ≡ 2 ^ k * m
    half k = rw (pow_double k) (omega arith)

    half_ones : (k : ℕ) → (2 ^ suc k - 1) / 2 ≡ 2 ^ k - 1
    half_ones k = omega (arith, pow_double k, pow_pos k)
