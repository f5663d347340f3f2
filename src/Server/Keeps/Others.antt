-- ===== src/Server/Keeps/Others.antt =====
-- The sessions that a client's new session puts out of the table of server/UDP/UDP.cpp.
use scholar_vpn.Prelude.{
  ℕ, ◌≡◌, inl, inr, refl, sym, ap, ◌∙◌, subst, false, not, ◌&&◌, List, [], ◌∷◌, ltb, ◌==◌, bytes_eq,
  bytes_eq_iff, All, arith, Bool-cases, Option-cases, by_branch, by_option,
}
use scholar_vpn.Vip.{ByteOrder}
use scholar_vpn.Server.{Session, Server, Outside}
use scholar_vpn.Server.Table.{find, remove, free_address, bill_rest, release_session, release_all}
use scholar_vpn.Server.Identity.{others}
use scholar_vpn.Server.Held.{Present}

-- A session stays where another one goes.
find-remove :
    (ss : List Session) (key k : List ℕ)
    → bytes_eq k key ≡ false
    → find (remove ss k) key ≡ find ss key
unfolding find remove
find-remove [] key k n = refl
find-remove (u ∷ us) key k n = elim (Bool-cases (bytes_eq u.peer_key k)) [
  | inl q ↦
      let e : bytes_eq u.peer_key key ≡ false =
        subst (λ x. bytes_eq x key ≡ false) (sym ((bytes_eq_iff u.peer_key k).0 q)) n in
      rw (q, remove) (rw (e, find) refl)
  | inr q ↦ elim (Bool-cases (bytes_eq u.peer_key key)) [
    | inl r ↦ rw (q, remove) (rw (r, find) refl)
    | inr r ↦ rw (q, remove) (rw (r, find) (find-remove us key k n))
  ]
]

sessions-release :
    (out : Outside) (o : ByteOrder) (sv : Server) (key k : List ℕ)
    → bytes_eq k key ≡ false
    → find (release_session out o sv k).sessions key ≡ find sv.sessions key
unfolding release_session bill_rest free_address
sessions-release out o sv key k n = elim (Option-cases (find sv.sessions k)) [
  | inl e ↦ rw (e, release_session) refl
  | inr (s, e) ↦
      rw (e, release_session)
        (freed _ s ∙ ap (λ ss. find ss key) (billed _ s) ∙ find-remove sv.sessions key k n)
]
  where
    freed :
        (x : Server) (s : Session) → find (free_address o x s).sessions key ≡ find x.sessions key
    freed x s =
        by_branch (λ (y : Server). find y.sessions key ≡ find x.sessions key)
          (s.ip_assigned && not (s.virtual_ip == 0)) _ _ (λ b. refl) (λ b. refl)

    billed : (x : Server) (s : Session) → (bill_rest out x s).sessions ≡ x.sessions
    billed x s =
        by_option (λ (y : Server). y.sessions ≡ x.sessions) out.service _ _ (λ b. refl)
          (λ svc b.
            by_branch (λ (y : Server). y.sessions ≡ x.sessions) (s.svc_managed && ltb 0 s.svc_bytes)
              _ _ (λ c. refl) (λ c. refl))

-- None of the keys is that of the session.
abbrev pub Others : List (List ℕ) → List ℕ → Type 0
Others ks key = All (λ k. bytes_eq k key ≡ false) ks

pub others-Others : (ss : List Session) (s : Session) → Others (others ss s) s.peer_key
unfolding others
others-Others [] s = tt
others-Others (t ∷ ts) s =
    by_branch (λ ks. Others ks s.peer_key)
      (not (bytes_eq t.peer_key s.peer_key) && bytes_eq t.cli_pub_hex s.cli_pub_hex) _ _
      (λ b. (ground (arith, b), others-Others ts s)) (λ b. others-Others ts s)

pub release_all-Present :
    (out : Outside) (o : ByteOrder) (ks : List (List ℕ)) (sv : Server) (s : Session)
    → Others ks s.peer_key
    → Present sv.sessions s
    → Present (release_all out o sv ks).sessions s
unfolding release_all
release_all-Present out o [] sv s n e = e
release_all-Present out o (k ∷ ks) sv s n e =
    release_all-Present out o ks (release_session out o sv k) s n.1
      (sessions-release out o sv s.peer_key k n.0 ∙ e)
