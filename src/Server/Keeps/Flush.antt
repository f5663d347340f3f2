-- ===== src/Server/Keeps/Flush.antt =====
-- The traffic of the managed clients in `heartbeat_work` of server/UDP/UDP.cpp.
use scholar_vpn.Prelude.{
  ℕ, ◌≡◌, inl, inr, refl, ◌&&◌, List, [], ◌∷◌, none, ltb, bytes_eq, length, All, arith, Bool-cases,
  by_branch,
}
use scholar_vpn.Vip.{ByteOrder}
use scholar_vpn.Server.{Session}
use scholar_vpn.Server.Table.{find, per_ip}
use scholar_vpn.Server.Beat.{flush_one, flush_all}
use scholar_vpn.Server.Held.{held}
use scholar_vpn.Server.Valid.{Good}
use scholar_vpn.Server.Seats.{Unique, Seats}

pub held-flush : (o : ByteOrder) (ss : List Session) → held o (flush_all ss) ≡ held o ss
unfolding held flush_all flush_one
held-flush o [] = refl
held-flush o (s ∷ ss) = same (held-flush o ss) (flush_one s) (
    by_branch (λ t. Same t) (s.svc_managed && ltb 0 s.svc_bytes) _ _ (λ b. (refl, refl))
      (λ b. (refl, refl)))
  where
    Same : Session → Type 0
    Same t = (t.ip_assigned ≡ s.ip_assigned) × (t.virtual_ip ≡ s.virtual_ip)

    same :
        held o (flush_all ss) ≡ held o ss
        → (t : Session) → Same t
        → held o (t ∷ flush_all ss) ≡ held o (s ∷ ss)
    same ih t (a, b) = rw (a, b, ih) refl

pub flush-Good : (ss : List Session) → All Good ss → All Good (flush_all ss)
unfolding flush_all flush_one
flush-Good [] g = g
flush-Good (s ∷ ss) g = (
  by_branch Good (s.svc_managed && ltb 0 s.svc_bytes) _ _ (λ b. g.0) (λ b. g.0),
  flush-Good ss g.1,
)

flush-source :
    (s : Session) → ((flush_one s).peer_key ≡ s.peer_key) × ((flush_one s).peer_ip ≡ s.peer_ip)
unfolding flush_one
flush-source s =
    by_branch (λ (t : Session). (t.peer_key ≡ s.peer_key) × (t.peer_ip ≡ s.peer_ip))
      (s.svc_managed && ltb 0 s.svc_bytes) _ _ (λ b. (refl, refl)) (λ b. (refl, refl))

find-flush-none : (ss : List Session) (k : List ℕ) → find ss k ≡ none → find (flush_all ss) k ≡ none
unfolding find flush_all
find-flush-none [] k h = h
find-flush-none (s ∷ ss) k h = elim (Bool-cases (bytes_eq s.peer_key k)) [
  | inl q ↦ absurd (ground (arith, q, h))
  | inr q ↦ rw ((flush-source s).0, q, find) (find-flush-none ss k (rw q at h))
]

Unique-flush : (ss : List Session) → Unique ss → Unique (flush_all ss)
unfolding Unique flush_all
Unique-flush [] u = u
Unique-flush (s ∷ ss) u =
    (rw (flush-source s).0 (find-flush-none ss s.peer_key u.0), Unique-flush ss u.1)

per_ip-flush : (ss : List Session) (ip : List ℕ) → per_ip (flush_all ss) ip ≡ per_ip ss ip
unfolding per_ip flush_all
per_ip-flush [] ip = refl
per_ip-flush (s ∷ ss) ip = rw ((flush-source s).1, per_ip-flush ss ip) refl

length-flush : (ss : List Session) → length (flush_all ss) ≡ length ss
unfolding flush_all
length-flush [] = refl
length-flush (s ∷ ss) = rw (length-flush ss) refl

pub flush-Seats : (max : ℕ) (ss : List Session) → Seats max ss → Seats max (flush_all ss)
flush-Seats max ss v = record {
  unique = Unique-flush ss v.unique;
  few = λ ip. rw (per_ip-flush ss ip) (v.few ip);
  fits = rw (length-flush ss) v.fits;
}
