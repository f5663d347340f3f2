-- ===== src/Vip/Range.antt =====
-- The constructor of `VirtualIpPool`, and the candidate address of an identity.
use Prim.Native.Nat.{bit_and, bit_or}
use native.Mathlib.Nat.{mod-lt, div-lt_iff_lt-mul}
use scholar_vpn.Prelude.{
  ℕ, zero, suc, ◌+◌, ◌-◌, ◌*◌, ◌/◌, ◌%◌, ◌^◌, ◌<◌, ◌≤◌, ◌≡◌, ◌≢◌, ap, ◌∙◌, false, List, [], ltb,
  leb, if◌then◌else◌, arith,
}
use scholar_vpn.Prelude.Bits.{pow_pos, pow_add}
use scholar_vpn.Prelude.Masks.{bit_and-mask, bit_or-fill}
use scholar_vpn.Vip.{Pool, mask_of_prefix, ranged, make, preferred_for, fnv}
use scholar_vpn.Vip.Valid.{Host}

-- The address of the subnet with `k` host bits that holds `gw`.
abbrev pub subnet : ℕ → ℕ → ℕ
subnet gw k = 2 ^ k * (gw / 2 ^ k)

ranged_lem :
    (gw net size : ℕ)
    → 4 ≤ size
    → net + size ≤ 2 ^ 32
    → ranged gw
        ((net + 1) % 2 ^ 32)
        (if ltb 0 (net + (size - 1)) then net + (size - 1) - 1 else net + (size - 1))
      ≡ record { used = []; first = net + 1; last = net + size - 2; gw = gw }
unfolding ranged
ranged_lem gw net size h k = ground arith

times_pred : (a b : ℕ) → 0 < b → a * (b - 1) ≡ a * b - a
times_pred a zero h = absurd (omega arith)
times_pred a (suc b) h = let e : suc b - 1 ≡ b = omega arith in rw e (omega arith)

next_multiple : (a b c : ℕ) → b < c → a * b + a ≤ a * c
next_multiple a b c h = grind arith

module _ (gw prefix : ℕ) (some_host : 1 ≤ prefix) (two_hosts : prefix ≤ 30)
    (word : gw < 2 ^ 32) where
  bits : 32 - prefix + prefix ≡ 32
  bits = omega arith

  whole : 2 ^ (32 - prefix) * 2 ^ prefix ≡ 2 ^ 32
  whole = pow_add (32 - prefix) prefix ∙ ap (λ (t : ℕ). 2 ^ t) bits

  four : 4 ≤ 2 ^ (32 - prefix)
  four =
      let e : 2 + (30 - prefix) ≡ 32 - prefix = omega arith in
      omega (arith, pow_add 2 (30 - prefix), ap (λ (t : ℕ). 2 ^ t) e, pow_pos (30 - prefix))

  room : subnet gw (32 - prefix) + 2 ^ (32 - prefix) ≤ 2 ^ 32
  room = omega (
    arith,
    whole,
    next_multiple (2 ^ (32 - prefix)) (gw / 2 ^ (32 - prefix)) (2 ^ prefix)
        ((div-lt_iff_lt-mul (pow_pos (32 - prefix))).1 (omega (arith, whole))),
  )

  mask_lem : mask_of_prefix prefix ≡ 2 ^ (32 - prefix) * (2 ^ prefix - 1)
  unfolding mask_of_prefix
  mask_lem =
      let e : leb prefix 0 ≡ false = ground arith in
      let f : leb 32 prefix ≡ false = ground arith in
      rw (e, f)
        (omega (
          arith,
          whole,
          times_pred (2 ^ (32 - prefix)) (2 ^ prefix) (pow_pos prefix),
          pow_pos (32 - prefix),
        ))

  host_bits : 2 ^ 32 - 1 - mask_of_prefix prefix ≡ 2 ^ (32 - prefix) - 1
  host_bits = omega (
    arith,
    mask_lem,
    whole,
    times_pred (2 ^ (32 - prefix)) (2 ^ prefix) (pow_pos prefix),
    pow_pos prefix,
    room,
  )

  net_lem : bit_and gw (mask_of_prefix prefix) ≡ subnet gw (32 - prefix)
  net_lem = ap (bit_and gw) mask_lem ∙ bit_and-mask (32 - prefix) prefix gw (omega (arith, whole))

  top_lem :
      bit_or (bit_and gw (mask_of_prefix prefix)) (2 ^ 32 - 1 - mask_of_prefix prefix)
      ≡ subnet gw (32 - prefix) + (2 ^ (32 - prefix) - 1)
  top_lem = rw (net_lem, host_bits) (bit_or-fill (32 - prefix) (gw / 2 ^ (32 - prefix)))

  -- For a prefix of 1 to 30 bits the pool ranges over the subnet of the gateway, without its network
  -- and its broadcast address.
  pub make_lem : make gw prefix ≡ record {
    used = [];
    first = subnet gw (32 - prefix) + 1;
    last = subnet gw (32 - prefix) + 2 ^ (32 - prefix) - 2;
    gw = gw;
  }
  unfolding make
  make_lem =
      rw (top_lem, net_lem) (ranged_lem gw (subnet gw (32 - prefix)) (2 ^ (32 - prefix)) four room)

-- The candidate of an identity is a host address of the subnet, never the gateway's, if the subnet
-- has at least two host addresses.
pub preferred_for-Host :
    (p : Pool) (key : List ℕ)
    → p.first ≢ 0
    → p.first < p.last
    → p.last < 2 ^ 32
    → Host p (preferred_for p key)
unfolding preferred_for
preferred_for-Host p key n h w =
    ground (arith, mod-lt (fnv 14695981039346656037 key) {m = p.last - p.first + 1} (omega arith))
