-- ===== src/Vip/Choose.antt =====
-- `VirtualIpPool::allocate`: the address that is chosen, and when there is none.
use scholar_vpn.Prelude.{
  ◌⊎◌, sym, ◌∙◌, ℕ, zero, suc, ◌+◌, ◌-◌, ◌^◌, ◌<◌, ◌≤◌, ◌≡◌, ◌≢◌, refl, true, false, none, some,
  ==_iff, contains, arith, Option-cases, inl, inr, Bool-cases,
}
use scholar_vpn.Vip.{
  ByteOrder, Pool, take_up, is_void, random_pick, scan, choose, allocate, release, try_acquire,
}
use scholar_vpn.Vip.Valid.{
  Host, IsValid, take_up-IsValid, try_acquire-true, try_acquire-false, release-IsValid,
}

-- `uniform_int_distribution(first, last)` stays in its range.
abbrev pub InRange : Pool → (ℕ → ℕ) → Type 0
InRange p draw = (i : ℕ) → (p.first ≤ draw i) × (draw i ≤ p.last)

-- A free host address.
abbrev pub Fresh : Pool → ℕ → Type 0
Fresh p ip = Host p ip × (contains p.used ip ≡ false)

random_pick-Fresh :
    (p : Pool) (draw : ℕ → ℕ) (rounds i ip : ℕ)
    → InRange p draw
    → random_pick p draw rounds i ≡ some ip
    → Fresh p ip
unfolding random_pick
random_pick-Fresh p draw zero i ip r e = cc
random_pick-Fresh p draw (suc rounds) i ip r e =
    ground (arith, r i, random_pick-Fresh p draw rounds (i + 1) ip r)

scan-Fresh : (p : Pool) (fuel ip j : ℕ) → p.first ≤ ip → scan p fuel ip ≡ some j → Fresh p j
unfolding scan
scan-Fresh p zero ip j h e = cc
scan-Fresh p (suc fuel) ip j h e = ground (arith, scan-Fresh p fuel (ip + 1) j)

scan_complete :
    (p : Pool) (fuel ip j : ℕ)
    → p.last < 2 ^ 32
    → p.last < ip + fuel
    → ip ≤ j
    → Host p j
    → scan p fuel ip ≡ none
    → contains p.used j ≡ true
unfolding scan
scan_complete p zero ip j w f h hj e = absurd (omega arith)
scan_complete p (suc fuel) ip j w f h hj e =
    ground (arith, scan_complete p fuel (ip + 1) j w, ==_iff ip j)

not_void : (p : Pool) → is_void p ≡ false → (p.first ≢ 0) × (p.first ≤ p.last)
not_void p n = ground arith

-- The two stages of the search, once the subnet has addresses.
choose_stages :
    (p : Pool) (draw : ℕ → ℕ)
    → ((is_void p ≡ true) × (choose p draw ≡ none))
      ⊎ ((is_void p ≡ false)
          × (((ip : ℕ) × (random_pick p draw 32 0 ≡ some ip) × (choose p draw ≡ some ip))
              ⊎ (choose p draw ≡ scan p (suc (p.last - p.first)) p.first)))
unfolding choose
choose_stages p draw = elim (Bool-cases (is_void p)) [
  | inl v ↦ inl (v, rw (v, choose))
  | inr n ↦ elim (Option-cases (random_pick p draw 32 0)) [
    | inl z ↦ inr (n, inr (rw (n, z, choose)))
    | inr (ip, z) ↦ inr (n, inl (ip, z, rw (n, z, choose)))
  ]
]

choose-Fresh :
    (p : Pool) (draw : ℕ → ℕ) (ip : ℕ)
    → InRange p draw
    → choose p draw ≡ some ip
    → (ip ≢ 0) × Fresh p ip
choose-Fresh p draw ip r e = elim (choose_stages p draw) [
  | inl (v, c) ↦ cc
  | inr (n, inl (j, z, c)) ↦ nonzero n (random_pick-Fresh p draw 32 0 ip r (z ∙ sym c ∙ e))
  | inr (n, inr c) ↦
      nonzero n (scan-Fresh p (suc (p.last - p.first)) p.first ip (omega arith) (sym c ∙ e))
]
  where
    nonzero : is_void p ≡ false → Fresh p ip → (ip ≢ 0) × Fresh p ip
    nonzero n f = (omega (arith, not_void p n), f)

-- `allocate` hands out a host address that nobody held, and records it as held; or it returns 0 and
-- leaves the pool as it was.
pub allocate-Fresh :
    (o : ByteOrder) (p : Pool) (draw : ℕ → ℕ)
    → IsValid p
    → InRange p draw
    → (((allocate o p draw).1 ≡ 0) × ((allocate o p draw).0 ≡ p))
      ⊎ ((ip : ℕ) × ((allocate o p draw).1 ≡ o.htonl ip)
          × (o.htonl ip ≢ 0)
          × Fresh p ip
          × ((allocate o p draw).0 ≡ take_up p ip))
unfolding allocate
allocate-Fresh o p draw v r = elim (Option-cases (choose p draw)) [
  | inl e ↦ rw (e, allocate) (inl (refl, refl))
  | inr (ip, e) ↦
      let f = choose-Fresh p draw ip r e in
      rw (e, allocate)
        (inr (ip, refl, (λ z. f.0 (o.htonl_zero ip (omega (arith, v.word)) z)), f.1, refl))
]

-- `allocate` returns 0 only if every host address of the subnet is held.
pub allocate_complete :
    (o : ByteOrder) (p : Pool) (draw : ℕ → ℕ) (ip : ℕ)
    → IsValid p
    → InRange p draw
    → is_void p ≡ false
    → (allocate o p draw).1 ≡ 0
    → Host p ip
    → contains p.used ip ≡ true
unfolding allocate
allocate_complete o p draw ip v r n e h = elim (Option-cases (choose p draw)) [
  | inl c ↦ elim (choose_stages p draw) [
    | inl (v', _) ↦ cc
    | inr (_, inl (j, _, d)) ↦ cc
    | inr (_, inr d) ↦
        scan_complete p (suc (p.last - p.first)) p.first ip v.word (omega arith) h.0 h (sym d ∙ c)
  ]
  | inr (j, c) ↦
      let f = choose-Fresh p draw j r c in
      absurd (f.0 (o.htonl_zero j (omega (arith, v.word)) (rw (c, allocate) at e)))
]

allocate-IsValid :
    (o : ByteOrder) (p : Pool) (draw : ℕ → ℕ)
    → IsValid p
    → InRange p draw
    → IsValid (allocate o p draw).0
allocate-IsValid o p draw v r = elim (allocate-Fresh o p draw v r) [
  | inl (_, q) ↦ rw q v
  | inr (ip, _, _, f, q) ↦ rw q (take_up-IsValid p ip v f.0 f.1)
]

-- The calls of the class.
pub data Call : Type 0 where
  allocates : (ℕ → ℕ) → Call
  acquires : ℕ → Call
  releases : ℕ → Call

unfoldable pub step : ByteOrder → Pool → Call → Pool
step o p (allocates draw) = (allocate o p draw).0
step o p (acquires ip) = (try_acquire p ip).0
step o p (releases ip_net) = release o p ip_net

-- The random draws of a call lie in the range of the pool.
abbrev pub Drawn : Pool → Call → Type 0
Drawn p (allocates draw) = InRange p draw
Drawn p (acquires ip) = Unit {0}
Drawn p (releases ip_net) = Unit {0}

-- Every call of the pool keeps the held addresses apart from each other, inside the range of the
-- subnet, and apart from the gateway's.
pub step-IsValid :
    (o : ByteOrder) (p : Pool) (c : Call) → IsValid p → Drawn p c → IsValid (step o p c)
unfolding step
step-IsValid o p (allocates draw) v d = allocate-IsValid o p draw v d
step-IsValid o p (acquires ip) v d = elim (Bool-cases (try_acquire p ip).1) [
  | inl e ↦ let (_, h, c, q) = try_acquire-true p ip e in rw q (take_up-IsValid p ip v h c)
  | inr e ↦ rw (try_acquire-false p ip e) v
]
step-IsValid o p (releases ip_net) v d = release-IsValid o p ip_net v
