-- ===== src/Vip/Lease/Laws.antt =====
-- What `UDP::allocate_virtual_ip` grants, on each of its paths.
use scholar_vpn.Prelude.{
  ℕ, ◌^◌, ◌<◌, ◌≡◌, ◌≢◌, refl, ◌∙◌, ap, true, false, not, ◌&&◌, List, [], ◌∷◌, some, ltb, ◌==◌,
  if◌then◌else◌, bytes_eq, bytes_eq_iff, length, arith, inl, inr, Bool-cases, Option-cases,
  contains-erase,
}
use scholar_vpn.Vip.{ByteOrder, Pool, release, try_acquire, take_up, preferred_for}
use scholar_vpn.Vip.Valid.{IsValid, try_acquire-true, try_acquire_free}
use scholar_vpn.Vip.Choose.{InRange, Fresh, allocate-Fresh}
use scholar_vpn.Vip.Lease.{
  Leases, Vips, lease_of, put, remember, leased_elsewhere, by_pool, by_identity, by_lease, assign,
  allocate_virtual_ip, release_virtual_ip,
}

lease_of-put : (m : Leases) (id : List ℕ) (ip : ℕ) → lease_of (put m id ip) id ≡ some ip
unfolding lease_of put
lease_of-put [] id ip = rw ((bytes_eq_iff id id).1 refl)
lease_of-put ((k, old) ∷ m) id ip = elim (Bool-cases (bytes_eq k id)) [
  | inl e ↦ rw (e, e)
  | inr e ↦ rw (e, e) (lease_of-put m id ip)
]

lease_of-remember :
    (m : Leases) (c : ℕ) (id : List ℕ) (ip : ℕ)
    → lease_of (remember m (c ∷ id) ip) (c ∷ id) ≡ some ip
unfolding remember
lease_of-remember m c id ip = lease_of-put (if ltb 10000 (length m) then [] else m) (c ∷ id) ip

-- The lease of an identity, where it has a name.
abbrev pub Leased : Leases → List ℕ → ℕ → Type 0
Leased m [] ip = Unit {0}
Leased m (c ∷ id) ip = lease_of m (c ∷ id) ≡ some ip

-- A result with an address: it was free, it is held now, and the lease names it.
pub data Grants (o : ByteOrder) (p : Pool) (id : List ℕ) : Vips × ℕ → Type 0 where
  refused : (v : Vips) → v.pool ≡ some p → Grants o p id (v, 0)
  granted :
      (v : Vips) (ip : ℕ)
      → o.htonl ip ≢ 0
      → Fresh p ip
      → v.pool ≡ some (take_up p ip)
      → Leased v.last_vip id ip
      → Grants o p id (v, o.htonl ip)

Leased-remember : (m : Leases) (id : List ℕ) (ip : ℕ) → Leased (remember m id ip) id ip
Leased-remember m [] ip = tt
Leased-remember m (c ∷ id) ip = lease_of-remember m c id ip

ne-test : (a : ℕ) → a ≢ 0 → (a == 0) ≡ false
ne-test a h = ground arith

module _ (o : ByteOrder) (draw : ℕ → ℕ) (v : Vips) (p : Pool) (ok : IsValid p)
    (r : InRange p draw) where
  by_pool-Grants : (id : List ℕ) → Grants o p id (by_pool o draw v p id)
  unfolding by_pool
  by_pool-Grants id = elim (allocate-Fresh o p draw ok r) [
    | inl (a, b) ↦ rw (a, b, by_pool) (refused _ refl)
    | inr (ip, a, n, f, q) ↦
        rw (a, q, ne-test (o.htonl ip) n, o.ntohl-htonl ip (omega (arith, ok.word)), by_pool)
          (granted _ ip n f refl (Leased-remember v.last_vip id ip))
  ]

  -- What a successful `try_acquire` gives.
  taken-Grants :
      (id : List ℕ) (ip : ℕ) (m : Leases)
      → (try_acquire p ip).1 ≡ true
      → Leased m id ip
      → Grants o p id (record v { pool = some (try_acquire p ip).0; last_vip = m }, o.htonl ip)
  taken-Grants id ip m t l =
      let (n, h, c, q) = try_acquire-true p ip t in
      rw q (granted _ ip (λ z. n (o.htonl_zero ip (omega (arith, ok.word)) z)) (h, c) refl l)

  by_identity-Grants : (id : List ℕ) → Grants o p id (by_identity o draw v p id)
  unfolding by_identity
  by_identity-Grants id =
      elim (Bool-cases (
        not (preferred_for p id == 0)
        && (not (leased_elsewhere v.last_vip id (preferred_for p id))
            && (try_acquire p (preferred_for p id)).1))) [
              | inl e ↦
                  rw (e, by_identity)
                    (taken-Grants id (preferred_for p id) _ (ground (arith, e))
                      (Leased-remember v.last_vip id (preferred_for p id)))
              | inr e ↦ rw (e, by_identity) (by_pool-Grants id)
            ]

  by_lease-Grants :
      (id : List ℕ) (ip : ℕ)
      → (ip ≢ 0 → Leased v.last_vip id ip)
      → Grants o p id (by_lease o draw v p id ip)
  unfolding by_lease
  by_lease-Grants id ip l = elim (Bool-cases (not (ip == 0) && (try_acquire p ip).1)) [
    | inl e ↦
        rw (e, by_lease) (taken-Grants id ip v.last_vip (ground (arith, e)) (l (ground (arith, e))))
    | inr e ↦ rw (e, by_lease) (by_identity-Grants id)
  ]

  assign-Grants : (id : List ℕ) → Grants o p id (assign o draw v p id)
  unfolding assign
  assign-Grants [] = by_pool-Grants []
  assign-Grants (c ∷ id) = elim (Option-cases (lease_of v.last_vip (c ∷ id))) [
    | inl e ↦ rw (e, assign) (by_lease-Grants (c ∷ id) 0 (λ z. absurd (z refl)))
    | inr (ip, e) ↦ rw (e, assign) (by_lease-Grants (c ∷ id) ip (λ z. e))
  ]

  -- Whoever asks is refused with the pool unchanged, or gets a host address that nobody held; the
  -- pool then holds it, and the lease of a named identity is that address.
  pub allocate_virtual_ip-Grants :
      (id : List ℕ) → v.pool ≡ some p → Grants o p id (allocate_virtual_ip o draw v id)
  unfolding allocate_virtual_ip
  allocate_virtual_ip-Grants id e = rw (e, allocate_virtual_ip) (assign-Grants id)

-- After a lease is back in the pool, the identity gets the same address again.
module _ (o : ByteOrder) (draw : ℕ → ℕ) (v : Vips) (p : Pool) (c : ℕ) (id : List ℕ) where
  by_lease_again :
      (ip : ℕ)
      → v.pool ≡ some p
      → lease_of v.last_vip (c ∷ id) ≡ some ip
      → ip ≢ 0
      → Fresh p ip
      → (allocate_virtual_ip o draw v (c ∷ id)).1 ≡ o.htonl ip
  unfolding allocate_virtual_ip assign by_lease
  by_lease_again ip e l n f =
      let t = try_acquire_free p ip n f.0 f.1 in
      rw (e, l, allocate_virtual_ip, assign) (ground (arith, t, ne-test ip n))

pool-release :
    (o : ByteOrder) (v : Vips) (p : Pool) (a : ℕ)
    → a ≢ 0
    → v.pool ≡ some p
    → (release_virtual_ip o v a).pool ≡ some (release o p a)
unfolding release_virtual_ip
pool-release o v p a n e = rw (ne-test a n, e, release_virtual_ip)

last_vip-release :
    (o : ByteOrder) (v : Vips) (a : ℕ) → (release_virtual_ip o v a).last_vip ≡ v.last_vip
unfolding release_virtual_ip
last_vip-release o v a = ground arith

release-Fresh :
    (o : ByteOrder) (p : Pool) (ip : ℕ)
    → ip < 2 ^ 32
    → Fresh p ip
    → Fresh (release o (take_up p ip) (o.htonl ip)) ip
unfolding release
release-Fresh o p ip w f =
    rw (o.ntohl-htonl ip w) (f.0, ground (arith, contains-erase (ip ∷ p.used) ip ip))

-- An identity that is granted an address and gives it back gets the same address again, whatever the
-- random draws are, where its next allocation is the next call on the pool and the leases.
pub reconnect_stable :
    (o : ByteOrder) (draw later : ℕ → ℕ) (v : Vips) (p : Pool) (c : ℕ) (id : List ℕ)
    → IsValid p
    → InRange p draw
    → v.pool ≡ some p
    → (allocate_virtual_ip o draw v (c ∷ id)).1 ≢ 0
    → let (v', ip_net) = allocate_virtual_ip o draw v (c ∷ id) in
      (allocate_virtual_ip o later (release_virtual_ip o v' ip_net) (c ∷ id)).1 ≡ ip_net
reconnect_stable o draw later v p c id ok r e n =
    again (allocate_virtual_ip o draw v (c ∷ id)) n
      (allocate_virtual_ip-Grants o draw v p ok r (c ∷ id) e)
  where
    again :
        (res : Vips × ℕ)
        → res.1 ≢ 0
        → Grants o p (c ∷ id) res
        → (allocate_virtual_ip o later (release_virtual_ip o res.0 res.1) (c ∷ id)).1 ≡ res.1
    again res n (refused v q) = absurd (n refl)
    again res n (granted v ip z f q l) =
        by_lease_again o later (release_virtual_ip o v (o.htonl ip))
          (release o (take_up p ip) (o.htonl ip)) c id ip
          (pool-release o v (take_up p ip) (o.htonl ip) z q)
          (ap (λ (m : Leases). lease_of m (c ∷ id)) (last_vip-release o v (o.htonl ip)) ∙ l)
          (λ e. z (ap o.htonl e ∙ o.htonl_of_zero))
          (release-Fresh o p ip (omega (arith, ok.word)) f)
