-- ===== src/Server/Quiet.antt =====
-- The handlers of server/UDP/UDP.cpp that give nothing to the TUN device.
use scholar_vpn.Prelude.{
  ℕ, ◌+◌, ◌%◌, ◌^◌, ◌≡◌, refl, ◌∙◌, Bool, true, not, ◌&&◌, ◌||◌, List, [], ◌∷◌, Option, some, ltb,
  leb, ◌==◌, length, by_branch, by_option,
}
use scholar_vpn.Vip.{ByteOrder}
use scholar_vpn.Vip.Lease.{Vips}
use scholar_vpn.Server.{
  Session, Server, Frame, Outside, Chance, is_authed, is_hello, m_identity_ok, m_identity_deny,
  m_auth_server_hello, hs_authed,
}
use scholar_vpn.Server.Table.{
  find, remove, put_session, free_address, bill_rest, release_session, release_all,
}
use scholar_vpn.Server.Send.{
  k_seq_rekey_limit, k_max_tcp_tx_buf_bytes, transmit, retire, body_of, send_packet,
}
use scholar_vpn.Server.Limiter.{allow_handshake_recompute}
use scholar_vpn.Server.Auth.{
  is_empty, is_repeat, is_foreign, server_hello, send_server_hello, restart, begin_exchange,
  handle_auth_hello, derive_keys, exchange, handle_auth_client_hello,
}
use scholar_vpn.Server.Identity.{
  Identity, parse_identity, to_hex, file_contains_line, file_remove_line, file_append_line, deny,
  register, consume, check_keys, admit, others, ok_payload, grant, with_address, take_address,
  assign_address, enter, check_service, check_client, is_bound, handle_identity,
}
use scholar_vpn.Server.Receive.{count_traffic, handle_disconnect}

-- The queue of the TUN device is as it was.
abbrev pub Quiet : Server → Server → Type 0
Quiet sv sv' = sv'.queue_recv ≡ sv.queue_recv

module _ (o : ByteOrder) (out : Outside) where
  freed-Quiet : (sv : Server) (s : Session) → Quiet sv (free_address o sv s)
  unfolding free_address
  freed-Quiet sv s =
      by_branch (Quiet sv) (s.ip_assigned && not (s.virtual_ip == 0)) _ _ (λ b. refl) (λ b. refl)

  billed-Quiet : (sv : Server) (s : Session) → Quiet sv (bill_rest out sv s)
  unfolding bill_rest
  billed-Quiet sv s =
      by_option (Quiet sv) out.service _ _ (λ d. refl)
        (λ svc d.
          by_branch (Quiet sv) (s.svc_managed && ltb 0 s.svc_bytes) _ _ (λ b. refl) (λ b. refl))

  pub released-Quiet : (sv : Server) (key : List ℕ) → Quiet sv (release_session out o sv key)
  unfolding release_session
  released-Quiet sv key =
      by_option (Quiet sv) (find sv.sessions key) _ _ (λ e. refl)
        λ s e.
          let sv' = record sv { sessions = remove sv.sessions key } in
          freed-Quiet (bill_rest out sv' s) s ∙ billed-Quiet sv' s

  all_released-Quiet : (ks : List (List ℕ)) (sv : Server) → Quiet sv (release_all out o sv ks)
  unfolding release_all
  all_released-Quiet [] sv = refl
  all_released-Quiet (k ∷ ks) sv =
      all_released-Quiet ks (release_session out o sv k) ∙ released-Quiet sv k

  abbrev QuietResult : Server → Server × Bool → Type 0
  QuietResult sv r = Quiet sv r.0

  transmitted-Quiet :
      (sv : Server) (s : Session) (f : Frame) (total : ℕ) (net : Bool)
      → Quiet sv (transmit sv s f total net).0
  unfolding transmit
  transmitted-Quiet sv s f total net =
      by_branch (QuietResult sv) s.is_tcp _ _
        (λ b.
          by_branch (QuietResult sv) (ltb k_max_tcp_tx_buf_bytes (s.tcp_tx_bytes + total)) _ _
            (λ c. refl) (λ c. refl))
        (λ b. by_branch (QuietResult sv) net _ _ (λ c. refl) (λ c. refl))

  pub sent-Quiet :
      (sv : Server) (s : Session) (kind : ℕ) (bytes : List ℕ) (net : Bool)
      → Quiet sv (send_packet out o sv s kind bytes net).0
  unfolding send_packet retire
  sent-Quiet sv s kind bytes net =
      let t : Session = record s { seq = (s.seq + 1) % 2 ^ 32 } in
      by_branch (QuietResult sv) (ltb 1400 (length bytes)) _ _ (λ b. refl)
        λ b.
          by_branch (QuietResult sv) (leb k_seq_rekey_limit s.seq) _ _
            (λ c.
              by_branch (Quiet sv) s.is_tcp _ _ (λ d. refl)
                (λ d. released-Quiet (put_session sv t) s.peer_key))
            λ c.
              by_option (QuietResult sv) (body_of s kind bytes) _ _ (λ d. refl)
                (λ x d. transmitted-Quiet sv t _ x.1 net)

  pub counted-Quiet : (sv : Server) (s : Session) (n : ℕ) → Quiet sv (count_traffic out o sv s n).0
  unfolding count_traffic
  counted-Quiet sv s n =
      let s' : Session = record s { svc_bytes = s.svc_bytes + n } in
      by_option (QuietResult sv) out.service _ _ (λ d. refl)
        λ svc d.
          by_branch (QuietResult sv) (not s.svc_managed) _ _ (λ b. refl)
            λ b.
              by_branch (QuietResult sv)
                (not s.svc_over
                  && (ltb 0 s.svc_quota && leb s.svc_quota (s.svc_used_base + s'.svc_bytes)))
                _ _
                (λ c. released-Quiet (put_session sv (record s' { svc_over = true })) s.peer_key)
                (λ c. refl)

  pub disconnected-Quiet : (sv : Server) (s : Session) → Quiet sv (handle_disconnect out o sv s)
  unfolding handle_disconnect
  disconnected-Quiet sv s =
      by_branch (Quiet sv) s.is_tcp _ _ (λ b. refl) (λ b. released-Quiet sv s.peer_key)

  hello_sent-Quiet :
      (sv : Server) (s : Session) (net : Bool) → Quiet sv (send_server_hello out o sv s net)
  unfolding send_server_hello
  hello_sent-Quiet sv s net =
      by_option (Quiet sv) (server_hello out s) _ _ (λ d. refl)
        λ p d.
          let t : Session = record s { server_hello_payload = p } in
          sent-Quiet (put_session sv t) t m_auth_server_hello p net

  pub auth_hello-Quiet :
      (ch : Chance) (sv : Server) (s : Session) (payload : List ℕ)
      → Quiet sv (handle_auth_hello out o ch sv s payload)
  unfolding handle_auth_hello begin_exchange allow_handshake_recompute
  auth_hello-Quiet ch sv s payload =
      let sv' = (allow_handshake_recompute sv s.peer_ip ch.now_ms).0 in
      by_branch (Quiet sv) (not (length payload == 16)) _ _ (λ b. refl)
        λ b.
          by_branch (Quiet sv) (not sv.has_sig_priv) _ _ (λ b. refl)
            λ b.
              by_branch (Quiet sv) (is_authed s.hs_stage || s.authenticated) _ _ (λ b. refl)
                λ b.
                  by_branch (Quiet sv) (is_repeat s payload) _ _ (λ c. hello_sent-Quiet sv s ch.net)
                    λ b.
                      by_branch (Quiet sv) (is_foreign s payload) _ _ (λ b. refl)
                        λ b.
                          by_branch (Quiet sv) (allow_handshake_recompute sv s.peer_ip ch.now_ms).1
                            _ _
                            (λ c.
                              by_option (Quiet sv) ch.ephemeral _ _ (λ d. refl)
                                (λ e d.
                                  hello_sent-Quiet sv'
                                    (record (restart s payload ch.nonce) {
                                      dh_srv_priv = some e.0;
                                      dh_srv_pub = e.1;
                                    })
                                    ch.net))
                            (λ c. refl)

  pub client_hello-Quiet :
      (sv : Server) (s : Session) (payload : List ℕ)
      → Quiet sv (handle_auth_client_hello out sv s payload)
  unfolding handle_auth_client_hello exchange derive_keys
  client_hello-Quiet sv s payload =
      by_branch (Quiet sv) (not (length payload == 32)) _ _ (λ b. refl)
        λ b.
          by_branch (Quiet sv) (not (is_hello s.hs_stage)) _ _ (λ b. refl)
            λ b.
              by_branch (Quiet sv) (is_empty s.nonce_c || is_empty s.nonce_s) _ _ (λ b. refl)
                λ b.
                  by_option (Quiet sv) s.dh_srv_priv _ _ (λ d. refl)
                    λ priv d.
                      by_option (Quiet sv) (out.ecdh priv payload) _ _ (λ e. refl)
                        λ secret e.
                          by_option (Quiet sv) (out.derive secret s.nonce_c s.nonce_s) _ _
                            (λ f. refl) (λ k f. refl)

  module _ (ch : Chance) where
    denied-Quiet : (sv : Server) (s : Session) (reason : ℕ) → Quiet sv (deny out o ch sv s reason)
    unfolding deny
    denied-Quiet sv s reason =
        let sv' = (send_packet out o sv s m_identity_deny (reason ∷ []) ch.net).0 in
        by_option (Quiet sv') (find sv'.sessions s.peer_key) _ _ (λ e. refl) (λ t e. refl)
        ∙ sent-Quiet sv s m_identity_deny (reason ∷ []) ch.net

    granted-Quiet : (sv : Server) (s : Session) → Quiet sv (grant out o ch sv s)
    unfolding grant
    granted-Quiet sv s =
        let t : Session = record s {
          authenticated = true;
          handshaked = true;
          hs_stage = hs_authed;
          last_rx_ms = ch.now_ms;
        } in
        sent-Quiet (put_session sv t) t m_identity_ok (ok_payload o sv s.virtual_ip) ch.net

    taken-Quiet :
        (sv : Server) (s : Session) (res : Vips × ℕ) → Quiet sv (take_address out o ch sv s res)
    unfolding take_address with_address
    taken-Quiet sv s (v, ip) =
        by_branch (Quiet sv) (ip == 0) _ _ (λ b. denied-Quiet (record sv { vips = v }) s 0)
          (λ b.
            granted-Quiet (with_address sv v s ip)
              (record s { virtual_ip = ip; ip_assigned = true }))

    entered-Quiet : (sv : Server) (s : Session) → Quiet sv (enter out o ch sv s)
    unfolding enter assign_address
    entered-Quiet sv s =
        let sv' = release_all out o (put_session sv s) (others sv.sessions s) in
        by_branch (Quiet sv') s.ip_assigned _ _ (λ b. granted-Quiet sv' s)
          (λ b. taken-Quiet sv' s _)
        ∙ all_released-Quiet (others sv.sessions s) (put_session sv s)

    keys_checked-Quiet :
        (sv : Server) (m : Identity) (hex : List ℕ) → Quiet sv (check_keys ch sv m hex).0
    unfolding check_keys register consume
    keys_checked-Quiet sv m hex =
        by_branch Checked (m.flags == 1) _ _
          (λ b.
            by_branch Checked (is_empty m.token) _ _ (λ c. refl)
              λ c.
                by_branch Checked (not (file_remove_line sv.tokens m.token ch.rewrites).1) _ _
                  (λ d. refl)
                  λ d.
                    by_branch Checked (not (file_append_line sv.clients hex ch.appends).1) _ _
                      (λ e. refl) (λ e. refl))
          (λ b. by_branch Checked (file_contains_line sv.clients hex) _ _ (λ c. refl) (λ c. refl))
      where
        Checked : Server × Option ℕ → Type 0
        Checked r = Quiet sv r.0

    pub identity-Quiet :
        (sv : Server) (s : Session) (inner : List ℕ)
        → Quiet sv (handle_identity out o ch sv s inner)
    unfolding handle_identity check_client check_service
    identity-Quiet sv s inner =
        by_branch (Quiet sv) s.authenticated _ _
          (λ b. sent-Quiet sv s m_identity_ok (ok_payload o sv s.virtual_ip) ch.net)
          λ u.
            by_option (Quiet sv) (parse_identity inner) _ _ (λ d. denied-Quiet sv s 0)
              λ m d.
                by_branch (Quiet sv) (is_bound out s m) _ _ (λ b. bound m)
                  (λ b. denied-Quiet sv s 0)
      where
        bound : (m : Identity) → Quiet sv (check_client out o ch sv s m)
        bound m =
            let hex = to_hex m.cli_pub in
            let sv' = (check_keys ch sv m hex).0 in
            by_option (Quiet sv') (check_keys ch sv m hex).1 _ _
              (λ d.
                by_option (Quiet sv') (admit out ch s m.client_id) _ _ (λ e. denied-Quiet sv' s 2)
                  (λ t e.
                    entered-Quiet sv' (record t { client_id = m.client_id; cli_pub_hex = hex })))
              (λ reason d. denied-Quiet sv' s reason)
            ∙ keys_checked-Quiet sv m hex
