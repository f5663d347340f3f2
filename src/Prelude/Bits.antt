-- ===== src/Prelude/Bits.antt =====
-- Bits of a number, counted from the lowest, and shifts.
use Prim.Native.Nat.{ℕ, zero, suc, ◌+◌, ◌*◌, ◌/◌, ◌%◌, ◌^◌, ◌<◌, ◌-◌}
use mathlib.Core.Path.{◌≡◌, ap, ◌∙◌}
use mathlib.Core.Bool.{Bool, true, false}
use native.Mathlib.Decide.{dec_lt}
use native.Mathlib.Omega.{arith}
use native.Mathlib.Nat.{
  pow-suc, div-add-mod, mod-lt, one-le-pow, add-mul-mod_self_left, mod-eq_of_lt, mul-one, zero-add,
  mul_assoc,
}
use scholar_vpn.Prelude.Tests.{◌==◌, ==_iff, ltb, if◌then◌else◌, Bool-cases}
use mathlib.Core.Logic.{inl, inr}

-- `(w >> k) & 1`
unfoldable pub test_bit : ℕ → ℕ → Bool
test_bit w zero = (w % 2) == 1
test_bit w (suc k) = test_bit (w / 2) k

pub pow_pos : (k : ℕ) → 0 < 2 ^ k
pow_pos k = one-le-pow k 2 (omega arith)

pub pow_double : (k : ℕ) → 2 ^ suc k ≡ 2 * 2 ^ k
pow_double k = omega (arith, pow-suc 2 k)

-- A remainder by a power of two keeps the lower bits in place.
half-mod : (x p : ℕ) → 0 < p → (x % (2 * p)) / 2 ≡ (x / 2) % p
half-mod x p h = omega (arith, x-mod, mod-lt (x / 2) h)
  where
    small : 2 * (x / 2 % p) + x % 2 < 2 * p
    small = omega (arith, mod-lt (x / 2) h)

    split : x ≡ (2 * (x / 2 % p) + x % 2) + 2 * p * (x / 2 / p)
    split = omega (arith, ap (λ (t : ℕ). 2 * t) (div-add-mod (x / 2) p), mul_assoc 2 p (x / 2 / p))

    x-mod : x % (2 * p) ≡ 2 * (x / 2 % p) + x % 2
    x-mod =
        ap (λ (t : ℕ). t % (2 * p)) split
        ∙ add-mul-mod_self_left (2 * (x / 2 % p) + x % 2) (2 * p) (x / 2 / p)
        ∙ mod-eq_of_lt small

pub test_bit-mod : (n k x : ℕ) → k < n → test_bit (x % 2 ^ n) k ≡ test_bit x k
unfolding test_bit
test_bit-mod zero k x h = absurd (omega arith)
test_bit-mod (suc n) zero x h = ap (λ (t : ℕ). t == 1) low
  where
    low : x % 2 ^ suc n % 2 ≡ x % 2
    low = rw (pow_double n) (omega (arith, div-add-mod x (2 * 2 ^ n)))
test_bit-mod (suc n) (suc k) x h =
    rw (pow_double n, half-mod x (2 ^ n) (pow_pos n)) (test_bit-mod n k (x / 2) (omega arith))

even : (x : ℕ) → (2 * x) % 2 ≡ 0
even x = omega arith

mul_two : (w p : ℕ) → w * (2 * p) ≡ 2 * (w * p)
mul_two w p = omega arith

half-shl : (w s : ℕ) → w * 2 ^ suc s / 2 ≡ w * 2 ^ s
half-shl w s = rw (pow_double s) (omega arith)

pub suc_plus : (s k : ℕ) → suc s + k ≡ suc (s + k)
suc_plus s k = omega arith

pub test_bit-shl_low : (s k w : ℕ) → k < s → test_bit (w * 2 ^ s) k ≡ false
unfolding test_bit
test_bit-shl_low zero k w h = absurd (omega arith)
test_bit-shl_low (suc s) zero w h =
    rw (pow_double s) (ground (arith, even (w * 2 ^ s), mul_two w (2 ^ s)))
test_bit-shl_low (suc s) (suc k) w h = rw (half-shl w s) (test_bit-shl_low s k w (omega arith))

pub test_bit-shl_high : (s k w : ℕ) → test_bit (w * 2 ^ s) (s + k) ≡ test_bit w k
unfolding test_bit
test_bit-shl_high zero k w = rw (mul-one w, zero-add k)
test_bit-shl_high (suc s) k w = rw (suc_plus s k, test_bit, half-shl w s) (test_bit-shl_high s k w)

-- The bits of `w << s`.
pub test_bit-shl :
    (s k w : ℕ) → test_bit (w * 2 ^ s) k ≡ (if ltb k s then false else test_bit w (k - s))
test_bit-shl s k w = elim (dec_lt k s) [
  | yes p ↦ ground (arith, test_bit-shl_low s k w)
  | no p ↦
      let e : s + (k - s) ≡ k = omega arith in
      ground (arith, (rw e at (test_bit-shl_high s (k - s) w)))
]

-- `w | (1 << k)`
unfoldable pub or_bit : ℕ → ℕ → ℕ
or_bit w k = if test_bit w k then w else w + 2 ^ k

half-add : (w k : ℕ) → (w + 2 ^ suc k) / 2 ≡ w / 2 + 2 ^ k
half-add w k = rw (pow_double k) (omega arith)

test_bit-set :
    (k j w : ℕ)
    → test_bit w k ≡ false
    → test_bit (w + 2 ^ k) j ≡ (if j == k then true else test_bit w j)
unfolding test_bit
test_bit-set zero zero w h = ground arith
test_bit-set zero (suc j) w h = let e : (w + 1) / 2 ≡ w / 2 = ground arith in rw e (ground arith)
test_bit-set (suc k) zero w h = rw (pow_double k) (ground arith)
test_bit-set (suc k) (suc j) w h = rw (half-add w k) (ground (arith, test_bit-set k j (w / 2) h))

pub test_bit-or_bit :
    (w k j : ℕ) → test_bit (or_bit w k) j ≡ (if j == k then true else test_bit w j)
unfolding or_bit
test_bit-or_bit w k j = elim (Bool-cases (test_bit w k)) [
  | inl e ↦ rw e (ground (arith, e, ==_iff j k))
  | inr e ↦ rw e (test_bit-set k j w e)
]

-- A clear bit below the width leaves room for itself.
set-lt : (n k w : ℕ) → k < n → w < 2 ^ n → test_bit w k ≡ false → w + 2 ^ k < 2 ^ n
unfolding test_bit
set-lt zero k w h b e = absurd (omega arith)
set-lt (suc n) zero w h b e = rw (pow_double n) (ground (arith, (rw (pow_double n) at b)))
set-lt (suc n) (suc k) w h b e =
    rw (pow_double n, pow_double k)
      (omega (
        arith,
        (rw (pow_double n) at b),
        set-lt n k (w / 2) (omega arith) (omega (arith, pow_double n)) e,
      ))

pub or_bit-lt : (n k w : ℕ) → k < n → w < 2 ^ n → or_bit w k < 2 ^ n
unfolding or_bit
or_bit-lt n k w h b = ground (arith, set-lt n k w h b)

pub pow_add : (a b : ℕ) → 2 ^ a * 2 ^ b ≡ 2 ^ (a + b)
pow_add zero b = rw (zero-add b) (omega arith)
pow_add (suc a) b = rw (suc_plus a b, pow_double a, pow_double (a + b)) (omega (arith, pow_add a b))
