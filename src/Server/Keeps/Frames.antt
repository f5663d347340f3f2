-- ===== src/Server/Keeps/Frames.antt =====
-- `handle_framed` of server/UDP/UDP.cpp keeps the invariant.
use scholar_vpn.Prelude.{
  ℕ, ◌+◌, ◌≡◌, refl, Bool, true, false, not, ◌&&◌, List, [], ◌∷◌, ltb, leb, ◌==◌, if◌then◌else◌,
  length, by_branch, by_option, is_not,
}
use scholar_vpn.Vip.{ByteOrder}
use scholar_vpn.Replay.{accept, too_old}
use scholar_vpn.Server.{
  Session, Server, Header, Outside, Chance, m_data, m_heart, m_heart_response, m_disconnect,
  m_identity, m_auth_hello, m_auth_client_hello,
}
use scholar_vpn.Server.Table.{put_session}
use scholar_vpn.Server.Receive.{
  tunnel_packet_source_ok, count_traffic, is_blocked, to_tun, handle_data, handle_disconnect,
  handle_inner, is_sealed, opened, handle_sealed, handle_plain, handle_framed,
}
use scholar_vpn.Server.Held.{Present, store-Present}
use scholar_vpn.Server.Valid.{IsValid, put-IsValid, release_session-IsValid}
use scholar_vpn.Server.Keeps.Sends.{find-Good, send_packet-IsValid}
use scholar_vpn.Server.Keeps.Hellos.{auth_hello-IsValid, client_hello-IsValid}
use scholar_vpn.Server.Keeps.Clients.{identity-IsValid}

module _ (o : ByteOrder) (out : Outside) where
  abbrev Counted : Server × Bool → Type 0
  Counted r = IsValid o r.0

  pub count_traffic-IsValid :
      (sv : Server) (s : Session) (n : ℕ)
      → IsValid o sv
      → Present sv.sessions s
      → IsValid o (count_traffic out o sv s n).0
  unfolding count_traffic
  count_traffic-IsValid sv s n v e =
      let g = find-Good o sv s v e in
      let s' : Session = record s { svc_bytes = s.svc_bytes + n } in
      by_option Counted out.service _ _ (λ d. v)
        λ svc d.
          by_branch Counted (not s.svc_managed) _ _ (λ b. v)
            λ b.
              by_branch Counted
                (not s.svc_over
                  && (ltb 0 s.svc_quota && leb s.svc_quota (s.svc_used_base + s'.svc_bytes)))
                _ _
                (λ c.
                  release_session-IsValid o out (put_session sv (record s' { svc_over = true }))
                    s.peer_key
                    (put-IsValid o sv s (record s' { svc_over = true }) v e refl (refl, refl, refl)
                      g))
                (λ c. put-IsValid o sv s s' v e refl (refl, refl, refl) g)

  -- The queue of the TUN device plays no part.
  tun-IsValid : (sv : Server) (pkt : List ℕ) → IsValid o sv → IsValid o (to_tun sv pkt)
  tun-IsValid sv pkt v = record {
    pool = v.pool;
    has_pool = v.has_pool;
    pool_ok = v.pool_ok;
    spans = v.spans;
    exact = v.exact;
    distinct = v.distinct;
    good = v.good;
    seats = v.seats;
  }

  data-IsValid :
      (sv : Server) (s : Session) (pkt : List ℕ)
      → IsValid o sv
      → Present sv.sessions s
      → IsValid o (handle_data out o sv s pkt)
  unfolding handle_data
  data-IsValid sv s pkt v e =
      let c = count_traffic-IsValid sv s (length pkt) v e in
      by_branch (IsValid o) (length pkt == 0) _ _ (λ b. v)
        λ b.
          by_branch (IsValid o) (not s.authenticated) _ _ (λ b. v)
            λ b.
              by_branch (IsValid o) (not (tunnel_packet_source_ok o s pkt)) _ _ (λ b. v)
                λ b.
                  by_branch (IsValid o) (not (count_traffic out o sv s (length pkt)).1) _ _ (λ b. c)
                    λ b.
                      by_branch (IsValid o) (is_blocked out pkt) _ _ (λ b. c)
                        (λ b. tun-IsValid (count_traffic out o sv s (length pkt)).0 pkt c)

  pub drop-IsValid :
      (sv : Server) (s : Session)
      → IsValid o sv
      → Present sv.sessions s
      → IsValid o (put_session sv (record s { tcp_drop = true }))
  drop-IsValid sv s v e =
      put-IsValid o sv s (record s { tcp_drop = true }) v e refl (refl, refl, refl)
        (find-Good o sv s v e)

  disconnect-IsValid :
      (sv : Server) (s : Session)
      → IsValid o sv
      → Present sv.sessions s
      → IsValid o (handle_disconnect out o sv s)
  unfolding handle_disconnect
  disconnect-IsValid sv s v e =
      by_branch (IsValid o) s.is_tcp _ _ (λ b. drop-IsValid sv s v e)
        (λ b. release_session-IsValid o out sv s.peer_key v)

  inner-IsValid :
      (ch : Chance) (sv : Server) (s : Session) (bytes : List ℕ)
      → IsValid o sv
      → Present sv.sessions s
      → s.enc_ready ≡ true
      → IsValid o (handle_inner out o ch sv s bytes)
  unfolding handle_inner
  inner-IsValid ch sv s [] v e r = v
  inner-IsValid ch sv s (kind ∷ inner) v e r =
      by_branch (IsValid o) (kind == m_data) _ _ (λ b. data-IsValid sv s inner v e)
        λ b.
          by_branch (IsValid o) (kind == m_heart) _ _
            (λ b. send_packet-IsValid o out sv s m_heart_response [] ch.net v e)
            λ b.
              by_branch (IsValid o) (kind == m_identity) _ _
                (λ b. identity-IsValid o out ch sv s inner v e r)
                λ b.
                  by_branch (IsValid o) (kind == m_disconnect) _ _
                    (λ b. disconnect-IsValid sv s v e) (λ b. v)

  opened-IsValid :
      (ch : Chance) (sv : Server) (s : Session) (seq : ℕ) (bytes : List ℕ)
      → IsValid o sv
      → Present sv.sessions s
      → s.enc_ready ≡ true
      → IsValid o (opened out o ch sv s seq bytes)
  opened-IsValid ch sv s seq [] v e r = v
  opened-IsValid ch sv s seq (c ∷ cs) v e r =
      let s' : Session = record s { replay = (accept s.replay seq).0; last_rx_ms = ch.now_ms } in
      by_branch (IsValid o) (accept s.replay seq).1 _ _
        (λ b.
          inner-IsValid ch (put_session sv s') s' (c ∷ cs)
            (put-IsValid o sv s s' v e refl (refl, refl, refl) (find-Good o sv s v e))
            (store-Present sv.sessions s s' e refl) r)
        (λ b. v)

  pub framed-IsValid :
      (ch : Chance) (sv : Server) (s : Session) (hdr : Header) (payload : List ℕ)
      → IsValid o sv
      → Present sv.sessions s
      → IsValid o (handle_framed out o ch sv s hdr payload)
  unfolding handle_framed handle_sealed handle_plain
  framed-IsValid ch sv s hdr payload v e =
      by_branch (IsValid o) (not (hdr.version == (if s.is_tcp then 2 else 1))) _ _ (λ b. v)
        λ b.
          by_branch (IsValid o) (is_sealed hdr.kind) _ _
            (λ b.
              by_branch (IsValid o) (not s.enc_ready) _ _ (λ c. v)
                λ c.
                  by_branch (IsValid o) (too_old s.replay hdr.sequence) _ _ (λ d. v)
                    (λ d.
                      opened-IsValid ch sv s hdr.sequence (out.open_sealed s.key_c2s hdr payload) v
                        e (is_not s.enc_ready c)))
            (λ b.
              by_branch (IsValid o) (hdr.kind == m_auth_hello) _ _
                (λ c. auth_hello-IsValid o out ch sv s payload v e)
                λ c.
                  by_branch (IsValid o) (hdr.kind == m_auth_client_hello) _ _
                    (λ d. client_hello-IsValid o out sv s payload v e) (λ d. v))
    where
      ready : (b : Bool) → not b ≡ false → b ≡ true
      ready true h = refl
      ready false h = cc
