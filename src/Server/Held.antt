-- ===== src/Server/Held.antt =====
-- The table of sessions of server/UDP/UDP.cpp, and the addresses that its sessions hold.
use scholar_vpn.Prelude.{
  ℕ, ◌≡◌, inl, inr, refl, sym, subst, true, List, [], ◌∷◌, some, if◌then◌else◌, bytes_eq,
  bytes_eq_iff, All, arith, Bool-cases,
}
use scholar_vpn.Vip.{ByteOrder}
use scholar_vpn.Server.{Session}
use scholar_vpn.Server.Table.{find, store, remove}

-- The session is the one that its key leads to.
abbrev pub Present : List Session → Session → Type 0
Present ss s = find ss s.peer_key ≡ some s

-- The addresses of the sessions, in host order.
unfoldable pub held : ByteOrder → List Session → List ℕ
held o [] = []
held o (s ∷ ss) = if s.ip_assigned then o.ntohl s.virtual_ip ∷ held o ss else held o ss

pub same_key : (a : List ℕ) → bytes_eq a a ≡ true
same_key a = (bytes_eq_iff a a).1 refl

pub find-key :
    (ss : List Session) (key : List ℕ) (s : Session) → find ss key ≡ some s → s.peer_key ≡ key
unfolding find
find-key [] key s e = absurd (cc)
find-key (t ∷ ss) key s e = elim (Bool-cases (bytes_eq t.peer_key key)) [
  | inl h ↦ ground (arith, h, (bytes_eq_iff t.peer_key key).0 h)
  | inr h ↦ find-key ss key s (rw h at e)
]

pub find-Present :
    (ss : List Session) (key : List ℕ) (s : Session) → find ss key ≡ some s → Present ss s
find-Present ss key s e = subst (λ k. find ss k ≡ some s) (sym (find-key ss key s e)) e

-- What holds of all sessions holds of the one that is found.
pub find-All :
    (P : Session → Type 0) (ss : List Session) (key : List ℕ) (s : Session)
    → find ss key ≡ some s
    → All P ss
    → P s
unfolding find
find-All P [] key s e h = absurd (cc)
find-All P (t ∷ ss) key s e h = elim (Bool-cases (bytes_eq t.peer_key key)) [
  | inl q ↦ let e' : t ≡ s = ground (arith, q, e) in subst P e' h.0
  | inr q ↦ find-All P ss key s (rw q at e) h.1
]

pub store-All :
    (P : Session → Type 0) (ss : List Session) (s : Session) → P s → All P ss → All P (store ss s)
unfolding store
store-All P [] s p h = tt
store-All P (t ∷ ss) s p h = elim (Bool-cases (bytes_eq t.peer_key s.peer_key)) [
  | inl q ↦ rw (q, store) (p, h.1)
  | inr q ↦ rw (q, store) (h.0, store-All P ss s p h.1)
]

pub remove-All :
    (P : Session → Type 0) (ss : List Session) (key : List ℕ) → All P ss → All P (remove ss key)
unfolding remove
remove-All P [] key h = tt
remove-All P (t ∷ ss) key h = elim (Bool-cases (bytes_eq t.peer_key key)) [
  | inl q ↦ rw (q, remove) h.1
  | inr q ↦ rw (q, remove) (h.0, remove-All P ss key h.1)
]

-- A session that was stored under a key in the table is found there.
pub store-Present :
    (ss : List Session) (s t : Session)
    → Present ss s
    → t.peer_key ≡ s.peer_key
    → Present (store ss t) t
unfolding find store
store-Present ss s t e k = go ss (rw k e)
  where
    go : (us : List Session) → find us t.peer_key ≡ some s → find (store us t) t.peer_key ≡ some t
    go [] h = absurd (cc)
    go (u ∷ us) h = elim (Bool-cases (bytes_eq u.peer_key t.peer_key)) [
      | inl q ↦ rw (q, store) (rw (same_key t.peer_key, find) refl)
      | inr q ↦ rw (q, store) (rw (q, find) (go us (rw q at h)))
    ]

-- The session has the same source and the same virtual address, if it has one.
abbrev pub SameAddress : Session → Session → Type 0
SameAddress t s =
    (t.ip_assigned ≡ s.ip_assigned) × (t.virtual_ip ≡ s.virtual_ip) × (t.peer_ip ≡ s.peer_ip)

pub held-store :
    (o : ByteOrder) (ss : List Session) (s t : Session)
    → Present ss s
    → t.peer_key ≡ s.peer_key
    → SameAddress t s
    → held o (store ss t) ≡ held o ss
unfolding find store held
held-store o ss s t e k a = go ss (rw k e)
  where
    go : (us : List Session) → find us t.peer_key ≡ some s → held o (store us t) ≡ held o us
    go [] h = refl
    go (u ∷ us) h = elim (Bool-cases (bytes_eq u.peer_key t.peer_key)) [
      | inl q ↦ let e' : u ≡ s = ground (arith, q, h) in rw (q, store) (rw (e', a.0, a.1) refl)
      | inr q ↦ rw (q, store) (rw (go us (rw q at h)) refl)
    ]
