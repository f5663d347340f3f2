-- ===== src/Server/Moves.antt =====
-- The table of sessions of server/UDP/UDP.cpp: the addresses held when a session goes, and when one
-- gets an address.
use scholar_vpn.Prelude.{
  ℕ, ◌≡◌, inl, inr, refl, ◌∙◌, Bool, true, false, ◌||◌, List, [], ◌∷◌, some, ◌==◌, ==_iff,
  if◌then◌else◌, bytes_eq, contains, Distinct, arith, Bool-cases,
}
use scholar_vpn.Vip.{ByteOrder}
use scholar_vpn.Server.{Session}
use scholar_vpn.Server.Table.{find, store, remove}
use scholar_vpn.Server.Held.{held}

-- A test on both sides of a decision on a session's key.
found_first :
    (u s : Session) (us : List Session) (key : List ℕ)
    → bytes_eq u.peer_key key ≡ true
    → find (u ∷ us) key ≡ some s
    → u ≡ s
unfolding find
found_first u s us key q h = ground (arith, q, h)

found_later :
    (u s : Session) (us : List Session) (key : List ℕ)
    → bytes_eq u.peer_key key ≡ false
    → find (u ∷ us) key ≡ some s
    → find us key ≡ some s
unfolding find
found_later u s us key q h = rw q at h

module _ (o : ByteOrder) where
  contains-held :
      (ss : List Session) (key : List ℕ) (s : Session)
      → find ss key ≡ some s
      → s.ip_assigned ≡ true
      → contains (held o ss) (o.ntohl s.virtual_ip) ≡ true
  unfolding find held contains
  contains-held [] key s h a = absurd (cc)
  contains-held (u ∷ us) key s h a = elim (Bool-cases (bytes_eq u.peer_key key)) [
    | inl q ↦
        let e = found_first u s us key q h in
        rw (e, a) (ground (arith, ==_iff (o.ntohl s.virtual_ip) (o.ntohl s.virtual_ip)))
    | inr q ↦
        let ih = contains-held us key s (found_later u s us key q h) a in
        elim (Bool-cases u.ip_assigned) [
          | inl b ↦ rw (b, ih) (ground arith)
          | inr b ↦ rw (b, ih) refl
        ]
  ]

  -- Without an address the session leaves no gap.
  pub held-remove_none :
      (ss : List Session) (key : List ℕ) (s : Session)
      → find ss key ≡ some s
      → s.ip_assigned ≡ false
      → held o (remove ss key) ≡ held o ss
  unfolding find held remove
  held-remove_none [] key s h a = refl
  held-remove_none (u ∷ us) key s h a = elim (Bool-cases (bytes_eq u.peer_key key)) [
    | inl q ↦ let e = found_first u s us key q h in rw (q, remove) (rw (e, a) refl)
    | inr q ↦ rw (q, remove) (rw (held-remove_none us key s (found_later u s us key q h) a) refl)
  ]

  pub contains-remove :
      (ss : List Session) (key : List ℕ) (s : Session) (b : ℕ)
      → find ss key ≡ some s
      → s.ip_assigned ≡ true
      → Distinct (held o ss)
      → contains (held o (remove ss key)) b
        ≡ (if o.ntohl s.virtual_ip == b then false else contains (held o ss) b)
  unfolding find held remove contains
  contains-remove [] key s b h a d = ground arith
  contains-remove (u ∷ us) key s b h a d = elim (Bool-cases (bytes_eq u.peer_key key)) [
    | inl q ↦
        let e = found_first u s us key q h in
        rw (q, remove) (rw (e, a) (first (o.ntohl s.virtual_ip) b (held o us) (rw (e, a) at d)))
    | inr q ↦
        let r = found_later u s us key q h in
        elim (Bool-cases u.ip_assigned) [
          | inl c ↦
              let d' : Distinct (o.ntohl u.virtual_ip ∷ held o us) = rw c at d in
              rw (q, remove)
                (rw (c) (
                  later (o.ntohl s.virtual_ip) (o.ntohl u.virtual_ip) b (held o us) _ d'.0
                    (contains-held us key s r a) (contains-remove us key s b r a d'.1)))
          | inr c ↦ rw (q, remove) (rw c (contains-remove us key s b r a (rw c at d)))
        ]
  ]
    where
      first :
          (x b : ℕ) (xs : List ℕ)
          → Distinct (x ∷ xs)
          → contains xs b ≡ (if x == b then false else contains (x ∷ xs) b)
      first x b xs d = ground (arith, ==_iff x b)

      later :
          (x y b : ℕ) (xs : List ℕ) (r : Bool)
          → contains xs y ≡ false
          → contains xs x ≡ true
          → r ≡ (if x == b then false else contains xs b)
          → ((y == b) || r) ≡ (if x == b then false else ((y == b) || contains xs b))
      later x y b xs r f t e = ground (arith, ==_iff x b, ==_iff y b)

  -- Nobody gets an address by it.
  absent-remove :
      (ss : List Session) (key : List ℕ) (b : ℕ)
      → contains (held o ss) b ≡ false
      → contains (held o (remove ss key)) b ≡ false
  unfolding held remove contains
  absent-remove [] key b h = h
  absent-remove (u ∷ us) key b h = elim (Bool-cases u.ip_assigned) [
    | inl c ↦
        let (x, y) = apart (o.ntohl u.virtual_ip == b) (contains (held o us) b) (rw c at h) in
        elim (Bool-cases (bytes_eq u.peer_key key)) [
          | inl q ↦ rw (q, remove) y
          | inr q ↦ rw (q, remove) (rw (c, x, absent-remove us key b y) refl)
        ]
    | inr c ↦ elim (Bool-cases (bytes_eq u.peer_key key)) [
      | inl q ↦ rw (q, remove) (rw c at h)
      | inr q ↦ rw (q, remove) (rw c (absent-remove us key b (rw c at h)))
    ]
  ]
    where
      apart : (x y : Bool) → (x || y) ≡ false → (x ≡ false) × (y ≡ false)
      apart x y h = ground arith

  pub Distinct-remove :
      (ss : List Session) (key : List ℕ) → Distinct (held o ss) → Distinct (held o (remove ss key))
  unfolding held remove
  Distinct-remove [] key d = d
  Distinct-remove (u ∷ us) key d = elim (Bool-cases u.ip_assigned) [
    | inl c ↦
        let d' : Distinct (o.ntohl u.virtual_ip ∷ held o us) = rw c at d in
        elim (Bool-cases (bytes_eq u.peer_key key)) [
          | inl q ↦ rw (q, remove) d'.1
          | inr q ↦
              rw (q, remove)
                (rw c
                  (absent-remove us key (o.ntohl u.virtual_ip) d'.0, Distinct-remove us key d'.1))
        ]
    | inr c ↦ elim (Bool-cases (bytes_eq u.peer_key key)) [
      | inl q ↦ rw (q, remove) (rw c at d)
      | inr q ↦ rw (q, remove) (rw c (Distinct-remove us key (rw c at d)))
    ]
  ]

  -- A session without an address gets one that nobody holds.
  module _ (s t : Session) (none_yet : s.ip_assigned ≡ false) (given : t.ip_assigned ≡ true) where
    pub contains-give :
        (ss : List Session) (b : ℕ)
        → find ss t.peer_key ≡ some s
        → contains (held o (store ss t)) b ≡ ((o.ntohl t.virtual_ip == b) || contains (held o ss) b)
    unfolding held store contains find
    contains-give [] b h = absurd (cc)
    contains-give (u ∷ us) b h = elim (Bool-cases (bytes_eq u.peer_key t.peer_key)) [
      | inl q ↦
          let e = found_first u s us t.peer_key q h in rw (q, store) (rw (e, none_yet, given) refl)
      | inr q ↦
          let ih = contains-give us b (found_later u s us t.peer_key q h) in
          elim (Bool-cases u.ip_assigned) [
            | inl c ↦
                rw (q, store)
                  (rw (c, ih)
                    (swap (o.ntohl u.virtual_ip == b) (o.ntohl t.virtual_ip == b)
                      (contains (held o us) b)))
            | inr c ↦ rw (q, store) (rw (c, ih) refl)
          ]
    ]
      where
        swap : (x y z : Bool) → (x || (y || z)) ≡ (y || (x || z))
        swap x y z = ground arith

    pub Distinct-give :
        (ss : List Session)
        → find ss t.peer_key ≡ some s
        → contains (held o ss) (o.ntohl t.virtual_ip) ≡ false
        → Distinct (held o ss)
        → Distinct (held o (store ss t))
    unfolding held store contains find
    Distinct-give [] h n d = d
    Distinct-give (u ∷ us) h n d = elim (Bool-cases (bytes_eq u.peer_key t.peer_key)) [
      | inl q ↦
          let e = found_first u s us t.peer_key q h in
          rw (q, store) (rw given (rw (e, none_yet) at n, rw (e, none_yet) at d))
      | inr q ↦
          let r = found_later u s us t.peer_key q h in
          elim (Bool-cases u.ip_assigned) [
            | inl c ↦
                let d' : Distinct (o.ntohl u.virtual_ip ∷ held o us) = rw c at d in
                let n' : contains (o.ntohl u.virtual_ip ∷ held o us) (o.ntohl t.virtual_ip)
                    ≡ false =
                  rw c at n in
                rw (q, store)
                  (rw c (
                    contains-give us (o.ntohl u.virtual_ip) r
                        ∙ other (o.ntohl t.virtual_ip) (o.ntohl u.virtual_ip) (held o us) n' d'.0,
                    Distinct-give us r
                        (tail (o.ntohl u.virtual_ip) (o.ntohl t.virtual_ip) (held o us) n') d'.1,
                  ))
            | inr c ↦ rw (q, store) (rw c (Distinct-give us r (rw c at n) (rw c at d)))
          ]
    ]
      where
        other :
            (x y : ℕ) (xs : List ℕ)
            → contains (y ∷ xs) x ≡ false
            → contains xs y ≡ false
            → ((x == y) || contains xs y) ≡ false
        other x y xs h k = ground (arith, ==_iff x y, ==_iff y x)

        tail : (y x : ℕ) (xs : List ℕ) → contains (y ∷ xs) x ≡ false → contains xs x ≡ false
        tail y x xs h = ground arith
