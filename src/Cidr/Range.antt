-- ===== src/Cidr/Range.antt =====
-- src/platform/cidr.h: masks, and the addresses of a network.
use Prim.Native.Nat.{bit_and}
use native.Mathlib.Nat.{mul-div_cancel_left}
use scholar_vpn.Prelude.{
  ℕ, zero, suc, ◌+◌, ◌-◌, ◌*◌, ◌/◌, ◌^◌, ◌≤◌, ◌<◌, ◌≡◌, ◌↔◌, refl, ap, sym, ◌∙◌, subst, Bool, true,
  ◌&&◌, ◌==◌, ==_iff, arith, Bool-cases, inl, inr,
}
use scholar_vpn.Prelude.Bits.{pow_pos, pow_add}
use scholar_vpn.Prelude.Masks.{bit_and-mask}
use scholar_vpn.Cidr.{Net, mask_of, contains}

-- The test holds of every number below `n`.
abbrev all_below : (ℕ → Bool) → ℕ → Bool
all_below f zero = true
all_below f (suc n) = f n && all_below f n

all_below-at : (f : ℕ → Bool) (n i : ℕ) → all_below f n ≡ true → i < n → f i ≡ true
all_below-at f zero i h k = absurd (omega arith)
all_below-at f (suc n) i h k = elim (Bool-cases (i == n)) [
  | inl e ↦ subst (λ (j : ℕ). f j ≡ true) (sym ((==_iff i n).0 e)) (first (f n) (all_below f n) h)
  | inr e ↦ all_below-at f n i (second (f n) (all_below f n) h) (ground arith)
]
  where
    first : (a b : Bool) → (a && b) ≡ true → a ≡ true
    first a b h = ground arith

    second : (a b : Bool) → (a && b) ≡ true → b ≡ true
    second a b h = ground arith

masks : all_below (λ p. mask_of p == 2 ^ (32 - p) * (2 ^ p - 1)) 33 ≡ true
unfolding mask_of
masks = refl

mask_lem : (p : ℕ) → p ≤ 32 → mask_of p ≡ 2 ^ (32 - p) * (2 ^ p - 1)
mask_lem p h =
    (==_iff _ _).0
      (all_below-at (λ p. mask_of p == 2 ^ (32 - p) * (2 ^ p - 1)) 33 p masks (omega arith))

masked : (p a : ℕ) → p ≤ 32 → a < 2 ^ 32 → bit_and a (mask_of p) ≡ 2 ^ (32 - p) * (a / 2 ^ (32 - p))
masked p a h k = ap (bit_and a) (mask_lem p h) ∙ bit_and-mask (32 - p) p a (omega (arith, whole))
  where
    sum : 32 - p + p ≡ 32
    sum = omega arith

    whole : 2 ^ (32 - p) * 2 ^ p ≡ 2 ^ 32
    whole = pow_add (32 - p) p ∙ ap (λ (t : ℕ). 2 ^ t) sum

-- For a prefix up to 32 and addresses of 32 bits, a network contains an address exactly if the two
-- addresses agree when their last `32 - prefix` bits are cut off.
pub contains_iff :
    (net : Net) (ip : ℕ)
    → net.prefix ≤ 32
    → net.addr < 2 ^ 32
    → ip < 2 ^ 32
    → (contains net ip ≡ true) ↔ (ip / 2 ^ (32 - net.prefix) ≡ net.addr / 2 ^ (32 - net.prefix))
unfolding contains
contains_iff net ip h a b =
    let test = ==_iff (bit_and ip (mask_of net.prefix)) (bit_and net.addr (mask_of net.prefix)) in
    let m = masked net.prefix ip h b in
    let n = masked net.prefix net.addr h a in
    (
      (λ e. cancel (2 ^ (32 - net.prefix)) _ _ (pow_pos (32 - net.prefix)) (sym m ∙ test.0 e ∙ n)),
      λ e. test.1 (m ∙ ap (λ (t : ℕ). 2 ^ (32 - net.prefix) * t) e ∙ sym n),
    )
  where
    cancel : (k x y : ℕ) → 0 < k → k * x ≡ k * y → x ≡ y
    cancel k x y h e =
        sym (mul-div_cancel_left x h) ∙ ap (λ (t : ℕ). t / k) e ∙ mul-div_cancel_left y h
