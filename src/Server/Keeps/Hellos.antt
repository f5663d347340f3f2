-- ===== src/Server/Keeps/Hellos.antt =====
-- The first two stages of the hand-shake of server/UDP/UDP.cpp keep the invariant.
use scholar_vpn.Prelude.{
  ℕ, ◌≡◌, ◌⊎◌, inl, inr, refl, sym, subst, Bool, true, false, not, ◌||◌, List, none, some, ◌==◌,
  length, arith, by_branch, by_option,
}
use scholar_vpn.Vip.{ByteOrder}
use scholar_vpn.Server.{
  Session, Server, Outside, Chance, hs_keys, hs_authed, is_authed, is_hello, m_auth_server_hello,
}
use scholar_vpn.Server.Limiter.{allow_handshake_recompute}
use scholar_vpn.Server.Auth.{
  is_empty, server_hello, send_server_hello, is_repeat, is_foreign, restart, begin_exchange,
  handle_auth_hello, derive_keys, exchange, handle_auth_client_hello,
}
use scholar_vpn.Server.Held.{Present, SameAddress}
use scholar_vpn.Server.Valid.{Good, IsValid, put-IsValid}
use scholar_vpn.Server.Keeps.Sends.{find-Good, put_send-IsValid}

module _ (o : ByteOrder) where
  server_hello-IsValid :
      (out : Outside) (sv : Server) (s t : Session) (net : Bool)
      → IsValid o sv
      → Present sv.sessions s
      → t.peer_key ≡ s.peer_key
      → SameAddress t s
      → Good t
      → IsValid o (send_server_hello out o sv t net)
  unfolding send_server_hello
  server_hello-IsValid out sv s t net v e k a g =
      by_option (IsValid o) (server_hello out t) _ _ (λ d. put-IsValid o sv s t v e k a g)
        (λ p d.
          put_send-IsValid o out sv s (record t { server_hello_payload = p }) m_auth_server_hello p
            net v e k a g)

  begin_exchange-IsValid :
      (out : Outside) (ch : Chance) (sv : Server) (s t : Session)
      → IsValid o sv
      → Present sv.sessions s
      → t.peer_key ≡ s.peer_key
      → SameAddress t s
      → Good t
      → IsValid o (begin_exchange out o ch sv t)
  unfolding begin_exchange
  begin_exchange-IsValid out ch sv s t v e k a g =
      by_option (IsValid o) ch.ephemeral _ _ (λ d. put-IsValid o sv s t v e k a g)
        (λ x d.
          server_hello-IsValid out sv s (record t { dh_srv_priv = some x.0; dh_srv_pub = x.1 })
            ch.net v e k a g)

  -- The buckets play no part.
  limited-IsValid :
      (sv : Server) (ip : List ℕ) (now : ℕ)
      → IsValid o sv
      → IsValid o (allow_handshake_recompute sv ip now).0
  unfolding allow_handshake_recompute
  limited-IsValid sv ip now v = record {
    pool = v.pool;
    has_pool = v.has_pool;
    pool_ok = v.pool_ok;
    spans = v.spans;
    exact = v.exact;
    distinct = v.distinct;
    good = v.good;
    seats = v.seats;
  }

  limited-sessions :
      (sv : Server) (ip : List ℕ) (now : ℕ)
      → (allow_handshake_recompute sv ip now).0.sessions ≡ sv.sessions
  unfolding allow_handshake_recompute
  limited-sessions sv ip now = refl

  pub auth_hello-IsValid :
      (out : Outside) (ch : Chance) (sv : Server) (s : Session) (payload : List ℕ)
      → IsValid o sv
      → Present sv.sessions s
      → IsValid o (handle_auth_hello out o ch sv s payload)
  unfolding handle_auth_hello restart
  auth_hello-IsValid out ch sv s payload v e =
      let g = find-Good o sv s v e in
      let sv' = (allow_handshake_recompute sv s.peer_ip ch.now_ms).0 in
      let v' = limited-IsValid sv s.peer_ip ch.now_ms v in
      by_branch (IsValid o) (not (length payload == 16)) _ _ (λ b. v)
        λ b.
          by_branch (IsValid o) (not sv.has_sig_priv) _ _ (λ b. v)
            λ b.
              by_branch (IsValid o) (is_authed s.hs_stage || s.authenticated) _ _ (λ b. v)
                λ b.
                  by_branch (IsValid o) (is_repeat s payload) _ _
                    (λ c. server_hello-IsValid out sv s s ch.net v e refl (refl, refl, refl) g)
                    λ b.
                      by_branch (IsValid o) (is_foreign s payload) _ _ (λ b. v)
                        λ b.
                          by_branch (IsValid o) (allow_handshake_recompute sv s.peer_ip ch.now_ms).1
                            _ _
                            (λ c.
                              begin_exchange-IsValid out ch sv' s (restart s payload ch.nonce) v'
                                (subst (λ ss. Present ss s)
                                  (sym (limited-sessions sv s.peer_ip ch.now_ms)) e)
                                refl (refl, refl, refl) (inl refl, refl, g.2))
                            (λ c. v')

  derive_keys-IsValid :
      (out : Outside) (sv : Server) (s t : Session) (secret : List ℕ)
      → IsValid o sv
      → Present sv.sessions s
      → t.peer_key ≡ s.peer_key
      → SameAddress t s
      → Good t
      → t.authenticated ≡ false
      → IsValid o (derive_keys out sv t secret)
  unfolding derive_keys
  derive_keys-IsValid out sv s t secret v e k a g n =
      by_option (IsValid o) (out.derive secret t.nonce_c t.nonce_s) _ _
        (λ d. put-IsValid o sv s t v e k a g)
        (λ x d.
          put-IsValid o sv s
            (record t {
              key_c2s = x.0;
              key_s2c = x.1;
              dh_srv_priv = none;
              hs_stage = hs_keys;
              enc_ready = true;
            })
            v e k a (inl n, g.1, g.2))

  exchange-IsValid :
      (out : Outside) (sv : Server) (s t : Session) (priv : List ℕ)
      → IsValid o sv
      → Present sv.sessions s
      → t.peer_key ≡ s.peer_key
      → SameAddress t s
      → Good t
      → t.authenticated ≡ false
      → IsValid o (exchange out sv t priv)
  unfolding exchange
  exchange-IsValid out sv s t priv v e k a g n =
      by_option (IsValid o) (out.ecdh priv t.dh_cli_pub) _ _ (λ d. put-IsValid o sv s t v e k a g)
        (λ x d. derive_keys-IsValid out sv s t x v e k a g n)

  pub client_hello-IsValid :
      (out : Outside) (sv : Server) (s : Session) (payload : List ℕ)
      → IsValid o sv
      → Present sv.sessions s
      → IsValid o (handle_auth_client_hello out sv s payload)
  unfolding handle_auth_client_hello
  client_hello-IsValid out sv s payload v e =
      let g = find-Good o sv s v e in
      by_branch (IsValid o) (not (length payload == 32)) _ _ (λ b. v)
        λ b.
          by_branch (IsValid o) (not (is_hello s.hs_stage)) _ _ (λ b. v)
            λ h.
              by_branch (IsValid o) (is_empty s.nonce_c || is_empty s.nonce_s) _ _ (λ b. v)
                λ b.
                  by_option (IsValid o) s.dh_srv_priv _ _ (λ d. v)
                    (λ x d.
                      exchange-IsValid out sv s (record s { dh_cli_pub = payload }) x v e refl
                        (refl, refl, refl) g (stranger h g.0))
    where
      stranger :
          not (is_hello s.hs_stage) ≡ false
          → ((s.authenticated ≡ false)
              ⊎ ((s.ip_assigned ≡ true) × (s.enc_ready ≡ true) × (s.hs_stage ≡ hs_authed)))
          → s.authenticated ≡ false
      stranger h (inl q) = q
      stranger h (inr q) = absurd (ground (arith, h, q))
