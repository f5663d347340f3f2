-- ===== src/Server/Valid.antt =====
-- The invariant of the server of server/UDP/UDP.cpp, and the moves that its handlers are made of.
use scholar_vpn.Prelude.{
  ℕ, ◌≤◌, ◌≡◌, ◌≢◌, ◌⊎◌, inl, inr, refl, sym, ap, ◌∙◌, subst, true, false, ◌&&◌, List, [], ◌∷◌,
  some, ltb, ◌==◌, if◌then◌else◌, contains, contains-erase, All, Distinct, arith, Bool-cases,
  Option-cases, by_option,
}
use scholar_vpn.Vip.{ByteOrder, Pool, release}
use scholar_vpn.Vip.Valid
use scholar_vpn.Vip.Lease.{release_virtual_ip}
use scholar_vpn.Server.{Session, Server, hs_authed, Outside}
use scholar_vpn.Server.Table.{
  find, remove, put_session, free_address, bill_rest, evict, evict_key, release_session,
  release_all,
}
use scholar_vpn.Server.Held.{
  held, Present, SameAddress, find-Present, find-All, store-All, remove-All, held-store,
}
use scholar_vpn.Server.Seats.{Seats, Seats-store, Seats-remove}
use scholar_vpn.Server.Moves.{held-remove_none, contains-remove, Distinct-remove}

-- A session that is authenticated has finished the hand-shake, has its keys and holds an address; an
-- address is never 0.
abbrev pub Good : Session → Type 0
Good s =
    ((s.authenticated ≡ false)
      ⊎ ((s.ip_assigned ≡ true) × (s.enc_ready ≡ true) × (s.hs_stage ≡ hs_authed)))
    × (s.handshaked ≡ s.authenticated)
    × ((s.ip_assigned ≡ false) ⊎ (s.virtual_ip ≢ 0))

-- The addresses in use are those of the sessions in the table, each held by one, and the table keeps
-- its limits.
pub record IsValid (o : ByteOrder) (sv : Server) : Type 0 where
  pub pool : Pool
  pub has_pool : sv.vips.pool ≡ some pool
  pub pool_ok : Valid.IsValid pool
  pub spans : pool.first ≤ pool.last
  pub exact : (a : ℕ) → contains pool.used a ≡ contains (held o sv.sessions) a
  pub distinct : Distinct (held o sv.sessions)
  pub good : All Good sv.sessions
  pub seats : Seats sv.max_clients sv.sessions

module _ (o : ByteOrder) where
  pub put-IsValid :
      (sv : Server) (s t : Session)
      → IsValid o sv
      → Present sv.sessions s
      → t.peer_key ≡ s.peer_key
      → SameAddress t s
      → Good t
      → IsValid o (put_session sv t)
  put-IsValid sv s t v e k a g =
      let same = held-store o sv.sessions s t e k a in
      record {
        pool = v.pool;
        has_pool = v.has_pool;
        pool_ok = v.pool_ok;
        spans = v.spans;
        exact = λ b. v.exact b ∙ ap (λ l. contains l b) (sym same);
        distinct = subst Distinct (sym same) v.distinct;
        good = store-All Good sv.sessions t g v.good;
        seats = Seats-store sv.max_clients sv.sessions s t e k a.2 v.seats;
      }

  -- The session is out of the table, and its address is free.
  gone : Server → List ℕ → Session → Server
  gone sv key s = free_address o (record sv { sessions = remove sv.sessions key }) s

  gone-IsValid :
      (sv : Server) (key : List ℕ) (s : Session)
      → IsValid o sv
      → find sv.sessions key ≡ some s
      → IsValid o (gone sv key s)
  unfolding gone free_address release_virtual_ip release
  gone-IsValid sv key s v e = elim (Bool-cases s.ip_assigned) [
    | inl a ↦
        let n = nonzero (find-All Good sv.sessions key s e v.good).2 a in
        rw (a, n, v.has_pool, free_address, release_virtual_ip)
          (record {
            pool = release o v.pool s.virtual_ip;
            has_pool = refl;
            pool_ok = Valid.release-IsValid o v.pool s.virtual_ip v.pool_ok;
            spans = v.spans;
            exact = λ b.
                contains-erase v.pool.used (o.ntohl s.virtual_ip) b
                ∙ ap (λ x. if o.ntohl s.virtual_ip == b then false else x) (v.exact b)
                ∙ sym (contains-remove o sv.sessions key s b e a v.distinct);
            distinct = Distinct-remove o sv.sessions key v.distinct;
            good = remove-All Good sv.sessions key v.good;
            seats = Seats-remove sv.max_clients sv.sessions key v.seats;
          })
    | inr a ↦
        let same = held-remove_none o sv.sessions key s e a in
        rw (a, free_address)
          (record {
            pool = v.pool;
            has_pool = v.has_pool;
            pool_ok = v.pool_ok;
            spans = v.spans;
            exact = λ b. v.exact b ∙ ap (λ l. contains l b) (sym same);
            distinct = Distinct-remove o sv.sessions key v.distinct;
            good = remove-All Good sv.sessions key v.good;
            seats = Seats-remove sv.max_clients sv.sessions key v.seats;
          })
  ]
    where
      nonzero :
          ((s.ip_assigned ≡ false) ⊎ (s.virtual_ip ≢ 0))
          → s.ip_assigned ≡ true
          → (s.virtual_ip == 0) ≡ false
      nonzero (inl h) a = absurd (cc)
      nonzero (inr h) a = ground arith

  pub evict_key-IsValid :
      (sv : Server) (key : List ℕ) → IsValid o sv → IsValid o (evict_key o sv key)
  unfolding evict_key evict gone
  evict_key-IsValid sv key v =
      by_option (IsValid o) (find sv.sessions key) _ _ (λ e. v)
        (λ s e. gone-IsValid sv s.peer_key s v (find-Present sv.sessions key s e))

  -- Logs and files play no part.
  log-IsValid :
      (sv : Server) (l : List (List ℕ × ℕ)) → IsValid o sv → IsValid o (record sv { billed = l })
  log-IsValid sv l v = record {
    pool = v.pool;
    has_pool = v.has_pool;
    pool_ok = v.pool_ok;
    spans = v.spans;
    exact = v.exact;
    distinct = v.distinct;
    good = v.good;
    seats = v.seats;
  }

  -- The bill changes the log alone.
  bill_rest-log :
      (out : Outside) (sv : Server) (s : Session)
      → (l : List (List ℕ × ℕ)) × (bill_rest out sv s ≡ record sv { billed = l })
  unfolding bill_rest
  bill_rest-log out sv s = elim (Option-cases out.service) [
    | inl e ↦ (sv.billed, rw (e, bill_rest) refl)
    | inr (svc, e) ↦ elim (Bool-cases (s.svc_managed && ltb 0 s.svc_bytes)) [
      | inl b ↦ ((s.client_id, s.svc_bytes) ∷ sv.billed, rw (e, bill_rest) (rw b refl))
      | inr b ↦ (sv.billed, rw (e, bill_rest) (rw b refl))
    ]
  ]

  pub release_session-IsValid :
      (out : Outside) (sv : Server) (key : List ℕ)
      → IsValid o sv
      → IsValid o (release_session out o sv key)
  unfolding release_session bill_rest gone
  release_session-IsValid out sv key v = elim (Option-cases (find sv.sessions key)) [
    | inl e ↦ rw (e, release_session) v
    | inr (s, e) ↦ rw (e, release_session) (billed-IsValid s e)
  ]
    where
      billed-IsValid :
          (s : Session)
          → find sv.sessions key ≡ some s
          → IsValid o
              (free_address o (bill_rest out (record sv { sessions = remove sv.sessions key }) s) s)
      billed-IsValid s e =
          let (l, q) = bill_rest-log out (record sv { sessions = remove sv.sessions key }) s in
          subst (λ x. IsValid o (free_address o x s)) (sym q)
            (gone-IsValid (record sv { billed = l }) key s (log-IsValid sv l v) e)

  pub release_all-IsValid :
      (out : Outside) (sv : Server) (ks : List (List ℕ))
      → IsValid o sv
      → IsValid o (release_all out o sv ks)
  unfolding release_all
  release_all-IsValid out sv [] v = v
  release_all-IsValid out sv (k ∷ ks) v =
      release_all-IsValid out (release_session out o sv k) ks (release_session-IsValid out sv k v)
