-- ===== src/Server/Seats.antt =====
-- The table of sessions of server/UDP/UDP.cpp: its size, its keys, and the sessions of one source.
use scholar_vpn.Prelude.{
  ℕ, suc, ◌<◌, ◌≤◌, ◌≡◌, ◌⊎◌, inl, inr, refl, subst, true, false, not, ◌&&◌, List, [], ◌∷◌, Option,
  none, some, ltb, bytes_eq, bytes_eq_iff, length, arith, Bool-cases, by_branch,
}
use scholar_vpn.Server.{Session}
use scholar_vpn.Server.Table.{find, store, remove, per_ip, oldest_pending, k_max_sessions_per_ip}
use scholar_vpn.Server.Held.{Present, same_key}

-- No two sessions have one key.
unfoldable pub Unique : List Session → Type 0
Unique [] = Unit
Unique (s ∷ ss) = (find ss s.peer_key ≡ none) × Unique ss

-- The table is not larger than its limit, and a source has at most 8 sessions in it.
pub record Seats (max : ℕ) (ss : List Session) : Type 0 where
  pub unique : Unique ss
  pub few : (ip : List ℕ) → per_ip ss ip ≤ k_max_sessions_per_ip
  pub fits : length ss ≤ max

find-store-none :
    (ss : List Session) (t : Session) (k : List ℕ) → find ss k ≡ none → find (store ss t) k ≡ none
unfolding find store
find-store-none [] t k h = h
find-store-none (u ∷ us) t k h = elim (Bool-cases (bytes_eq u.peer_key k)) [
  | inl q ↦ absurd (ground (arith, q, h))
  | inr q ↦ elim (Bool-cases (bytes_eq u.peer_key t.peer_key)) [
    | inl r ↦
        let e : bytes_eq t.peer_key k ≡ false =
          subst (λ x. bytes_eq x k ≡ false) ((bytes_eq_iff u.peer_key t.peer_key).0 r) q in
        rw (r, store) (rw (e, find) (rw q at h))
    | inr r ↦ rw (r, store) (rw (q, find) (find-store-none us t k (rw q at h)))
  ]
]

pub find-remove-none :
    (ss : List Session) (key k : List ℕ) → find ss k ≡ none → find (remove ss key) k ≡ none
unfolding find remove
find-remove-none [] key k h = h
find-remove-none (u ∷ us) key k h = elim (Bool-cases (bytes_eq u.peer_key k)) [
  | inl q ↦ absurd (ground (arith, q, h))
  | inr q ↦ elim (Bool-cases (bytes_eq u.peer_key key)) [
    | inl r ↦ rw (r, remove) (rw q at h)
    | inr r ↦ rw (r, remove) (rw (q, find) (find-remove-none us key k (rw q at h)))
  ]
]

Unique-store : (ss : List Session) (t : Session) → Unique ss → Unique (store ss t)
unfolding Unique store
Unique-store [] t u = u
Unique-store (x ∷ xs) t u = elim (Bool-cases (bytes_eq x.peer_key t.peer_key)) [
  | inl q ↦
      rw (q, store)
        (subst (λ k. find xs k ≡ none) ((bytes_eq_iff x.peer_key t.peer_key).0 q) u.0, u.1)
  | inr q ↦ rw (q, store) (find-store-none xs t x.peer_key u.0, Unique-store xs t u.1)
]

Unique-remove : (ss : List Session) (key : List ℕ) → Unique ss → Unique (remove ss key)
unfolding Unique remove
Unique-remove [] key u = u
Unique-remove (x ∷ xs) key u = elim (Bool-cases (bytes_eq x.peer_key key)) [
  | inl q ↦ rw (q, remove) u.1
  | inr q ↦ rw (q, remove) (find-remove-none xs key x.peer_key u.0, Unique-remove xs key u.1)
]

length-store : (ss : List Session) (t : Session) → length (store ss t) ≡ length ss
unfolding store
length-store [] t = refl
length-store (x ∷ xs) t = elim (Bool-cases (bytes_eq x.peer_key t.peer_key)) [
  | inl q ↦ rw (q, store) refl
  | inr q ↦ rw (q, store) (rw (length-store xs t) refl)
]

length-remove : (ss : List Session) (key : List ℕ) → length (remove ss key) ≤ length ss
unfolding remove
length-remove [] key = omega arith
length-remove (x ∷ xs) key = elim (Bool-cases (bytes_eq x.peer_key key)) [
  | inl q ↦ rw (q, remove) (omega arith)
  | inr q ↦ rw (q, remove) (omega (arith, length-remove xs key))
]

per_ip-store :
    (ss : List Session) (s t : Session) (ip : List ℕ)
    → find ss t.peer_key ≡ some s
    → t.peer_ip ≡ s.peer_ip
    → per_ip (store ss t) ip ≡ per_ip ss ip
unfolding find store per_ip
per_ip-store [] s t ip e p = refl
per_ip-store (u ∷ us) s t ip e p = elim (Bool-cases (bytes_eq u.peer_key t.peer_key)) [
  | inl q ↦ let e' : u ≡ s = ground (arith, q, e) in rw (q, store) (rw (e', p) refl)
  | inr q ↦ rw (q, store) (rw (per_ip-store us s t ip (rw q at e) p) refl)
]

per_ip-remove : (ss : List Session) (key ip : List ℕ) → per_ip (remove ss key) ip ≤ per_ip ss ip
unfolding remove per_ip
per_ip-remove [] key ip = omega arith
per_ip-remove (x ∷ xs) key ip = elim (Bool-cases (bytes_eq x.peer_key key)) [
  | inl q ↦ rw (q, remove) (ground arith)
  | inr q ↦ let ih = per_ip-remove xs key ip in rw (q, remove) (ground arith)
]

module _ (max : ℕ) where
  pub Seats-store :
      (ss : List Session) (s t : Session)
      → Present ss s
      → t.peer_key ≡ s.peer_key
      → t.peer_ip ≡ s.peer_ip
      → Seats max ss
      → Seats max (store ss t)
  Seats-store ss s t e k p v = record {
    unique = Unique-store ss t v.unique;
    few = λ ip. rw (per_ip-store ss s t ip (rw k e) p) (v.few ip);
    fits = rw (length-store ss t) v.fits;
  }

  pub Seats-remove : (ss : List Session) (key : List ℕ) → Seats max ss → Seats max (remove ss key)
  Seats-remove ss key v = record {
    unique = Unique-remove ss key v.unique;
    few = λ ip. omega (arith, v.few ip, per_ip-remove ss key ip);
    fits = omega (arith, v.fits, length-remove ss key);
  }

-- A session goes that is found under its key.
per_ip-gone :
    (ss : List Session) (key : List ℕ) (s : Session)
    → find ss key ≡ some s
    → suc (per_ip (remove ss key) s.peer_ip) ≡ per_ip ss s.peer_ip
unfolding find remove per_ip
per_ip-gone [] key s e = absurd (cc)
per_ip-gone (u ∷ us) key s e = elim (Bool-cases (bytes_eq u.peer_key key)) [
  | inl q ↦
      let e' : u ≡ s = ground (arith, q, e) in rw (q, remove) (rw (e', same_key s.peer_ip) refl)
  | inr q ↦ let ih = per_ip-gone us key s (rw q at e) in rw (q, remove) (ground (arith, ih))
]

-- The session is in the table under its key, and comes from the source.
Candidate : List Session → List ℕ → Option Session → Type 0
Candidate ss ip none = Unit
Candidate ss ip (some s) = Present ss s × (s.peer_ip ≡ ip)

Candidate-later :
    (u : Session) (us : List Session) (ip : List ℕ) (c : Option Session)
    → find us u.peer_key ≡ none
    → Candidate us ip c
    → Candidate (u ∷ us) ip c
unfolding find Candidate
Candidate-later u us ip none n h = h
Candidate-later u us ip (some s) n (e, p) = elim (Bool-cases (bytes_eq u.peer_key s.peer_key)) [
  | inl q ↦
      let e' : find us u.peer_key ≡ some s = rw ((bytes_eq_iff u.peer_key s.peer_key).0 q) e in
      absurd (ground (arith, n, e'))
  | inr q ↦ (rw (q, find) e, p)
]

oldest-Candidate :
    (ss : List Session) (ip : List ℕ) (least : ℕ) (best : Option Session)
    → Unique ss
    → (oldest_pending ss ip least best ≡ best) ⊎ Candidate ss ip (oldest_pending ss ip least best)
unfolding oldest_pending Unique Candidate find
oldest-Candidate [] ip least best u = inl refl
oldest-Candidate (s ∷ ss) ip least best u =
    by_branch Either (bytes_eq s.peer_ip ip && (not s.handshaked && ltb s.created_at_ms least)) _ _
      (λ b. inr (
        newer b (oldest_pending ss ip s.created_at_ms (some s))
          (oldest-Candidate ss ip s.created_at_ms (some s) u.1)))
      (λ b. kept (oldest_pending ss ip least best) (oldest-Candidate ss ip least best u.1))
  where
    Either : Option Session → Type 0
    Either r = (r ≡ best) ⊎ Candidate (s ∷ ss) ip r

    newer :
        (bytes_eq s.peer_ip ip && (not s.handshaked && ltb s.created_at_ms least)) ≡ true
        → (r : Option Session) → (r ≡ some s) ⊎ Candidate ss ip r
        → Candidate (s ∷ ss) ip r
    newer b r (inl e) =
        let p : bytes_eq s.peer_ip ip ≡ true = ground (arith, b) in
        rw e (rw (same_key s.peer_key, find) refl, (bytes_eq_iff s.peer_ip ip).0 p)
    newer b r (inr c) = Candidate-later s ss ip r u.0 c

    kept : (r : Option Session) → (r ≡ best) ⊎ Candidate ss ip r → Either r
    kept r (inl e) = inl e
    kept r (inr c) = inr (Candidate-later s ss ip r u.0 c)

-- The session that is pushed out leaves room for one of its source.
pub oldest-leaves_room :
    (ss : List Session) (ip : List ℕ) (least : ℕ) (s : Session)
    → Unique ss
    → oldest_pending ss ip least none ≡ some s
    → Present ss s × (suc (per_ip (remove ss s.peer_key) ip) ≡ per_ip ss ip)
unfolding Candidate
oldest-leaves_room ss ip least s u e =
    found (subst (λ r. (r ≡ none) ⊎ Candidate ss ip r) e (oldest-Candidate ss ip least none u))
  where
    found :
        (some s ≡ none) ⊎ Candidate ss ip (some s)
        → Present ss s × (suc (per_ip (remove ss s.peer_key) ip) ≡ per_ip ss ip)
    found (inl q) = absurd (cc)
    found (inr (p, q)) = (
      p,
      subst (λ i. suc (per_ip (remove ss s.peer_key) i) ≡ per_ip ss i) q
          (per_ip-gone ss s.peer_key s p),
    )

pub Seats-add :
    (max : ℕ) (ss : List Session) (s : Session)
    → Seats max ss
    → find ss s.peer_key ≡ none
    → per_ip ss s.peer_ip < k_max_sessions_per_ip
    → length ss < max
    → Seats max (s ∷ ss)
unfolding Unique per_ip
Seats-add max ss s v n f l = record {
  unique = (n, v.unique);
  few = λ ip. elim (Bool-cases (bytes_eq s.peer_ip ip)) [
    | inl q ↦
        let f' =
          subst (λ i. per_ip ss i < k_max_sessions_per_ip) ((bytes_eq_iff s.peer_ip ip).0 q) f in
        rw (q, per_ip) (omega (arith, f'))
    | inr q ↦ rw (q, per_ip) (v.few ip)
  ];
  fits = omega (arith, l);
}
