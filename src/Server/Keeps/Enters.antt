-- ===== src/Server/Keeps/Enters.antt =====
-- The end of the hand-shake of server/UDP/UDP.cpp, `handle_identity`, keeps the invariant.
use scholar_vpn.Prelude.{
  ℕ, ◌^◌, ◌<◌, ◌≤◌, ◌≡◌, ◌≢◌, ◌⊎◌, inl, inr, refl, sym, ap, ◌∙◌, true, false, ◌||◌, List, [], ◌∷◌,
  some, ◌==◌, ==_iff, contains, arith, by_branch, by_option,
}
use scholar_vpn.Vip.{ByteOrder, take_up}
use scholar_vpn.Vip.Valid
use scholar_vpn.Vip.Lease.{Vips, allocate_virtual_ip}
use scholar_vpn.Vip.Lease.Laws.{Grants, refused, granted, allocate_virtual_ip-Grants}
use scholar_vpn.Server.{Session, Server, Outside, Chance, hs_authed, m_identity_ok, m_identity_deny}
use scholar_vpn.Server.Table.{find}
use scholar_vpn.Server.Send.{send_packet}
use scholar_vpn.Server.Identity.{
  clear, deny, ok_payload, grant, draws, with_address, take_address, assign_address,
}
use scholar_vpn.Server.Held.{held, Present, find-Present, store-All, store-Present}
use scholar_vpn.Server.Moves.{contains-give, Distinct-give}
use scholar_vpn.Server.Seats.{Seats-store}
use scholar_vpn.Server.Valid.{Good, IsValid, put-IsValid}
use scholar_vpn.Server.Keeps.Sends.{find-Good, send_packet-IsValid, put_send-IsValid}

module _ (o : ByteOrder) (out : Outside) (ch : Chance) where
  clear-IsValid : (sv : Server) (key : List ℕ) → IsValid o sv → IsValid o (clear sv key)
  clear-IsValid sv key v =
      by_option (IsValid o) (find sv.sessions key) _ _ (λ e. v)
        λ s e.
          let p = find-Present sv.sessions key s e in
          put-IsValid o sv s (record s { authenticated = false; handshaked = false }) v p refl
            (refl, refl, refl) (inl refl, refl, (find-Good o sv s v p).2)

  pub deny-IsValid :
      (sv : Server) (s : Session) (reason : ℕ)
      → IsValid o sv
      → Present sv.sessions s
      → IsValid o (deny out o ch sv s reason)
  unfolding deny
  deny-IsValid sv s reason v e =
      clear-IsValid (send_packet out o sv s m_identity_deny (reason ∷ []) ch.net).0 s.peer_key
        (send_packet-IsValid o out sv s m_identity_deny (reason ∷ []) ch.net v e)

  grant-IsValid :
      (sv : Server) (s : Session)
      → IsValid o sv
      → Present sv.sessions s
      → s.ip_assigned ≡ true
      → s.enc_ready ≡ true
      → s.virtual_ip ≢ 0
      → IsValid o (grant out o ch sv s)
  unfolding grant
  grant-IsValid sv s v e a r n =
      put_send-IsValid o out sv s
        (record s {
          authenticated = true;
          handshaked = true;
          hs_stage = hs_authed;
          last_rx_ms = ch.now_ms;
        })
        m_identity_ok (ok_payload o sv s.virtual_ip) ch.net v e refl (refl, refl, refl)
        (inr (a, r, refl), refl, inr n)

  -- The pool as it was, with the map of leases or without.
  same_pool-IsValid :
      (sv : Server) (w : Vips) (v : IsValid o sv)
      → w.pool ≡ some v.pool
      → IsValid o (record sv { vips = w })
  same_pool-IsValid sv w v e = record {
    pool = v.pool;
    has_pool = e;
    pool_ok = v.pool_ok;
    spans = v.spans;
    exact = v.exact;
    distinct = v.distinct;
    good = v.good;
    seats = v.seats;
  }

  given : Session → ℕ → Session
  given s ip = record s { virtual_ip = o.htonl ip; ip_assigned = true }

  with_address-IsValid :
      (sv : Server) (w : Vips) (s : Session) (ip : ℕ) (v : IsValid o sv)
      → Present sv.sessions s
      → s.ip_assigned ≡ false
      → s.authenticated ≡ false
      → o.htonl ip ≢ 0
      → Valid.Host v.pool ip
      → contains v.pool.used ip ≡ false
      → w.pool ≡ some (take_up v.pool ip)
      → IsValid o (with_address sv w s (o.htonl ip))
  unfolding with_address given contains
  with_address-IsValid sv w s ip v e a u n h f q =
      let w32 : ip < 2 ^ 32 = omega (arith, v.pool_ok.word, h.1) in
      let back = o.ntohl-htonl ip w32 in
      let g = find-Good o sv s v e in
      record {
        pool = take_up v.pool ip;
        has_pool = q;
        pool_ok = Valid.take_up-IsValid v.pool ip v.pool_ok h f;
        spans = v.spans;
        exact = λ b.
            ap (λ x. (ip == b) || x) (v.exact b)
            ∙ ap (λ x. (x == b) || contains (held o sv.sessions) b) (sym back)
            ∙ sym (contains-give o s (given s ip) a refl sv.sessions b e);
        distinct =
            Distinct-give o s (given s ip) a refl sv.sessions e
              (ap (contains (held o sv.sessions)) back ∙ sym (v.exact ip) ∙ f) v.distinct;
        good = store-All Good sv.sessions (given s ip) (inl u, g.1, inr n) v.good;
        seats = Seats-store sv.max_clients sv.sessions s (given s ip) e refl refl v.seats;
      }

  take_address-IsValid :
      (sv : Server) (s : Session) (v : IsValid o sv) (res : Vips × ℕ)
      → Grants o v.pool s.client_id res
      → Present sv.sessions s
      → s.enc_ready ≡ true
      → s.ip_assigned ≡ false
      → s.authenticated ≡ false
      → IsValid o (take_address out o ch sv s res)
  unfolding take_address given
  take_address-IsValid sv s v res (refused w q) e r a u =
      deny-IsValid (record sv { vips = w }) s 0 (same_pool-IsValid sv w v q) e
  take_address-IsValid sv s v res (granted w ip n f q l) e r a u =
      by_branch (IsValid o) (o.htonl ip == 0) _ _ (λ z. absurd (n ((==_iff (o.htonl ip) 0).0 z)))
        (λ z.
          grant-IsValid (with_address sv w s (o.htonl ip)) (given s ip)
            (with_address-IsValid sv w s ip v e a u n f.0 f.1 q)
            (store-Present sv.sessions s (given s ip) e refl) refl r n)

  draws-in :
      (sv : Server) (v : IsValid o sv) (i : ℕ)
      → (v.pool.first ≤ draws ch sv.vips i) × (draws ch sv.vips i ≤ v.pool.last)
  draws-in sv v i = rw v.has_pool (ch.draw-in v.pool.first v.pool.last i v.spans)

  pub assign_address-IsValid :
      (sv : Server) (s : Session)
      → IsValid o sv
      → Present sv.sessions s
      → s.enc_ready ≡ true
      → s.authenticated ≡ false
      → IsValid o (assign_address out o ch sv s)
  unfolding assign_address
  assign_address-IsValid sv s v e r u =
      let g = find-Good o sv s v e in
      by_branch (IsValid o) s.ip_assigned _ _ (λ a. grant-IsValid sv s v e a r (nonzero a g.2))
        (λ a.
          take_address-IsValid sv s v (allocate_virtual_ip o (draws ch sv.vips) sv.vips s.client_id)
            (allocate_virtual_ip-Grants o (draws ch sv.vips) sv.vips v.pool v.pool_ok
              (draws-in sv v) s.client_id v.has_pool)
            e r a u)
    where
      nonzero :
          s.ip_assigned ≡ true → ((s.ip_assigned ≡ false) ⊎ (s.virtual_ip ≢ 0)) → s.virtual_ip ≢ 0
      nonzero a (inl h) = absurd (cc)
      nonzero a (inr h) = h
