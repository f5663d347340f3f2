-- ===== src/Server/Keeps/Clients.antt =====
-- `handle_identity` of server/UDP/UDP.cpp keeps the invariant.
use scholar_vpn.Prelude.{
  ℕ, ◌≡◌, refl, sym, ap, ◌∙◌, subst, Bool, true, false, not, List, Option, none, some, ◌==◌,
  by_branch, by_option,
}
use scholar_vpn.Vip.{ByteOrder}
use scholar_vpn.Server.{Session, Server, Outside, Chance, m_identity_ok}
use scholar_vpn.Server.Table.{find, put_session, release_all}
use scholar_vpn.Server.Auth.{is_empty}
use scholar_vpn.Server.Identity.{
  Identity, parse_identity, to_hex, file_contains_line, file_remove_line, file_append_line,
  register, consume, check_keys, is_refused, admit, others, ok_payload, enter, check_service,
  check_client, is_bound, handle_identity,
}
use scholar_vpn.Server.Held.{Present, SameAddress, store-Present}
use scholar_vpn.Server.Valid.{Good, IsValid, put-IsValid, release_all-IsValid}
use scholar_vpn.Server.Keeps.Sends.{find-Good, send_packet-IsValid}
use scholar_vpn.Server.Keeps.Others.{others-Others, release_all-Present}
use scholar_vpn.Server.Keeps.Enters.{deny-IsValid, assign_address-IsValid}

module _ (o : ByteOrder) (out : Outside) (ch : Chance) where
  enter-IsValid :
      (sv : Server) (s t : Session)
      → IsValid o sv
      → Present sv.sessions s
      → t.peer_key ≡ s.peer_key
      → SameAddress t s
      → Good t
      → t.enc_ready ≡ true
      → t.authenticated ≡ false
      → IsValid o (enter out o ch sv t)
  unfolding enter
  enter-IsValid sv s t v e k a g r u =
      assign_address-IsValid o out ch (release_all out o (put_session sv t) (others sv.sessions t))
        t
        (release_all-IsValid o out (put_session sv t) (others sv.sessions t)
          (put-IsValid o sv s t v e k a g))
        (release_all-Present out o (others sv.sessions t) (put_session sv t) t
          (others-Others sv.sessions t) (store-Present sv.sessions s t e k))
        r u

  -- The session of a client that is let in differs in its account alone.
  Accounted : Session → Option Session → Type 0
  Accounted s none = Unit
  Accounted s (some t) =
      (m : Bool) × (b : ℕ) × (q : ℕ) × (t
        ≡ record s { svc_managed = m; svc_used_base = b; svc_quota = q })

  admit-Accounted : (s : Session) (id : List ℕ) → Accounted s (admit out ch s id)
  unfolding admit Accounted
  admit-Accounted s id =
      by_option (Accounted s) out.service _ _ (λ d. same)
        λ svc d.
          by_branch (Accounted s) (svc.machine_blocked id) _ _ (λ b. tt)
            λ b.
              by_option (Accounted s) (svc.get_trial id) _ _ (λ c. same)
                λ t c.
                  by_branch (Accounted s) (is_refused t ch.now_s) _ _ (λ x. tt)
                    (λ x. (true, t.used_bytes, t.quota_bytes, refl))
    where
      same : Accounted s (some s)
      same = (s.svc_managed, s.svc_used_base, s.svc_quota, refl)

  check_service-IsValid :
      (sv : Server) (s : Session) (m : Identity) (hex : List ℕ)
      → IsValid o sv
      → Present sv.sessions s
      → s.enc_ready ≡ true
      → s.authenticated ≡ false
      → IsValid o (check_service out o ch sv s m hex)
  unfolding check_service Accounted
  check_service-IsValid sv s m hex v e r u =
      by_option (IsValid o) (admit out ch s m.client_id) _ _ (λ d. deny-IsValid o out ch sv s 2 v e)
        (λ t d. admitted t (subst (Accounted s) d (admit-Accounted s m.client_id)))
    where
      admitted :
          (t : Session)
          → Accounted s (some t)
          → IsValid o (enter out o ch sv (record t { client_id = m.client_id; cli_pub_hex = hex }))
      admitted t (x, b, q, h) =
          let t' : Session = record s {
            svc_managed = x;
            svc_used_base = b;
            svc_quota = q;
            client_id = m.client_id;
            cli_pub_hex = hex;
          } in
          let g = find-Good o sv s v e in
          subst
            (λ (y : Session).
              IsValid o
                (enter out o ch sv (record y { client_id = m.client_id; cli_pub_hex = hex })))
            (sym h) (enter-IsValid sv s t' v e refl (refl, refl, refl) g r u)

  -- The files change alone.
  Filed : Server → Server × Option ℕ → Type 0
  Filed sv r =
      (a : List (List ℕ)) × (b : List (List ℕ)) × (r.0 ≡ record sv { tokens = a; clients = b })

  check_keys-Filed : (sv : Server) (m : Identity) (hex : List ℕ) → Filed sv (check_keys ch sv m hex)
  unfolding check_keys Filed register consume
  check_keys-Filed sv m hex =
      by_branch (Filed sv) (m.flags == 1) _ _ (λ b. registered)
        (λ b. by_branch (Filed sv) (file_contains_line sv.clients hex) _ _ (λ c. same) (λ c. same))
    where
      same :
          (a : List (List ℕ)) × (b : List (List ℕ)) × (sv ≡ record sv { tokens = a; clients = b })
      same = (sv.tokens, sv.clients, refl)

      registered : Filed sv (register ch sv m.token hex)
      registered =
          let t = file_remove_line sv.tokens m.token ch.rewrites in
          let c = file_append_line sv.clients hex ch.appends in
          by_branch (Filed sv) (is_empty m.token) _ _ (λ b. same)
            λ b.
              by_branch (Filed sv) (not t.1) _ _ (λ d. same)
                λ d.
                  by_branch (Filed sv) (not c.1) _ _ (λ d. (t.0, sv.clients, refl))
                    (λ d. (t.0, c.0, refl))

  files-IsValid :
      (sv : Server) (a b : List (List ℕ))
      → IsValid o sv
      → IsValid o (record sv { tokens = a; clients = b })
  files-IsValid sv a b v = record {
    pool = v.pool;
    has_pool = v.has_pool;
    pool_ok = v.pool_ok;
    spans = v.spans;
    exact = v.exact;
    distinct = v.distinct;
    good = v.good;
    seats = v.seats;
  }

  check_client-IsValid :
      (sv : Server) (s : Session) (m : Identity)
      → IsValid o sv
      → Present sv.sessions s
      → s.enc_ready ≡ true
      → s.authenticated ≡ false
      → IsValid o (check_client out o ch sv s m)
  unfolding check_client Filed
  check_client-IsValid sv s m v e r u =
      let (a, b, q) = check_keys-Filed sv m (to_hex m.cli_pub) in
      let v' = subst (IsValid o) (sym q) (files-IsValid sv a b v) in
      let e' : Present (check_keys ch sv m (to_hex m.cli_pub)).0.sessions s =
        ap (λ (x : Server). find x.sessions s.peer_key) q ∙ e in
      by_option (IsValid o) (check_keys ch sv m (to_hex m.cli_pub)).1 _ _
        (λ d.
          check_service-IsValid (check_keys ch sv m (to_hex m.cli_pub)).0 s m (to_hex m.cli_pub) v'
            e' r u)
        (λ reason d. deny-IsValid o out ch (check_keys ch sv m (to_hex m.cli_pub)).0 s reason v' e')

  pub identity-IsValid :
      (sv : Server) (s : Session) (inner : List ℕ)
      → IsValid o sv
      → Present sv.sessions s
      → s.enc_ready ≡ true
      → IsValid o (handle_identity out o ch sv s inner)
  unfolding handle_identity
  identity-IsValid sv s inner v e r =
      by_branch (IsValid o) s.authenticated _ _
        (λ b.
          send_packet-IsValid o out sv s m_identity_ok (ok_payload o sv s.virtual_ip) ch.net v e)
        λ u.
          by_option (IsValid o) (parse_identity inner) _ _ (λ d. deny-IsValid o out ch sv s 0 v e)
            λ m d.
              by_branch (IsValid o) (is_bound out s m) _ _
                (λ b. check_client-IsValid sv s m v e r u) (λ b. deny-IsValid o out ch sv s 0 v e)
