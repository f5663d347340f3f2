-- ===== src/Server/Tun.antt =====
-- `handle_framed` of server/UDP/UDP.cpp: which packets reach the TUN device.
use scholar_vpn.Prelude.{
  ℕ, ◌+◌, ◌*◌, ◌/◌, ◌%◌, ◌≤◌, ◌≡◌, ◌⊎◌, inl, inr, refl, ap, ◌∙◌, Bool, true, false, not, ◌||◌, List,
  [], ◌∷◌, ltb, ◌==◌, ==_iff, if◌then◌else◌, length, arith, by_branch, is_not,
}
use scholar_vpn.Vip.{ByteOrder}
use scholar_vpn.Replay.{accept, too_old}
use scholar_vpn.Queue.Server.{QueueBuffer, push}
use scholar_vpn.Server.{
  Session, Server, Header, Outside, Chance, m_data, m_heart, m_heart_response, m_disconnect,
  m_identity, m_auth_hello, m_auth_client_hello,
}
use scholar_vpn.Server.Table.{put_session}
use scholar_vpn.Server.Identity.{byte_at}
use scholar_vpn.Server.Receive.{
  address_at, tunnel_packet_source_ok, count_traffic, is_blocked, handle_data, handle_inner,
  is_sealed, opened, handle_sealed, handle_plain, handle_framed,
}
use scholar_vpn.Server.Quiet.{
  Quiet, sent-Quiet, counted-Quiet, disconnected-Quiet, auth_hello-Quiet, client_hello-Quiet,
  identity-Quiet,
}

-- An IPv4 packet that names the address of its authenticated session as its source, and is not on the
-- black list, goes to the end of the queue.
pub record Admitted (o : ByteOrder) (out : Outside) (s : Session) (q q' : QueueBuffer (List ℕ))
    (pkt : List ℕ) : Type 0 where
  pub authenticated : s.authenticated ≡ true
  pub has_header : 20 ≤ length pkt
  pub is_ipv4 : byte_at pkt 0 / 16 ≡ 4
  pub has_address : s.ip_assigned ≡ true
  pub own_source : address_at pkt 12 ≡ o.ntohl s.virtual_ip
  pub unblocked : is_blocked out pkt ≡ false
  pub queued : q' ≡ (push q pkt).0

-- The packet is what an authentic data frame with a fresh sequence number carries.
pub record Passed (o : ByteOrder) (out : Outside) (s : Session) (hdr : Header) (payload : List ℕ)
    (q q' : QueueBuffer (List ℕ)) : Type 0 where
  pub packet : List ℕ
  pub has_keys : s.enc_ready ≡ true
  pub fresh : (accept s.replay hdr.sequence).1 ≡ true
  pub opens : out.open_sealed s.key_c2s hdr payload ≡ m_data ∷ packet
  pub admitted : Admitted o out s q q' packet

module _ (o : ByteOrder) (out : Outside) (ch : Chance) where
  pub source-ok :
      (s : Session) (pkt : List ℕ)
      → tunnel_packet_source_ok o s pkt ≡ true
      → (20 ≤ length pkt)
        × (byte_at pkt 0 / 16 ≡ 4)
        × (s.ip_assigned ≡ true)
        × (address_at pkt 12 ≡ o.ntohl s.virtual_ip)
  unfolding tunnel_packet_source_ok
  source-ok s pkt h =
      let ihl = byte_at pkt 0 % 16 in
      let total = byte_at pkt 2 * 256 + byte_at pkt 3 in
      refused_if (ltb (length pkt) 20 || not (byte_at pkt 0 / 16 == 4)) h λ b h.
        refused_if (ltb ihl 5 || ltb (length pkt) (ihl * 4)) h λ c h.
          refused_if (ltb total (ihl * 4) || ltb (length pkt) total) h λ d h. (
            ground (arith, b),
            ground (arith, b, ==_iff (byte_at pkt 0 / 16) 4),
            ground (arith, h),
            ground (arith, h, ==_iff (address_at pkt 12) (o.ntohl s.virtual_ip)),
          )
    where
      refused_if :
          {A : Type 0} (b : Bool) {c : Bool}
          → (if b then false else c) ≡ true
          → (b ≡ false → c ≡ true → A)
          → A
      refused_if true h f = absurd (cc)
      refused_if false h f = f refl h

  data-Admitted :
      (sv : Server) (s : Session) (pkt : List ℕ)
      → Quiet sv (handle_data out o sv s pkt)
        ⊎ Admitted o out s sv.queue_recv (handle_data out o sv s pkt).queue_recv pkt
  unfolding handle_data
  data-Admitted sv s pkt =
      let c = counted-Quiet o out sv s (length pkt) in
      by_branch Either (length pkt == 0) _ _ (λ b. inl refl)
        λ b.
          by_branch Either (not s.authenticated) _ _ (λ b. inl refl)
            λ a.
              by_branch Either (not (tunnel_packet_source_ok o s pkt)) _ _ (λ b. inl refl)
                λ p.
                  by_branch Either (not (count_traffic out o sv s (length pkt)).1) _ _ (λ b. inl c)
                    λ b.
                      by_branch Either (is_blocked out pkt) _ _ (λ b. inl c)
                        λ u.
                          let (h, v, i, e) = source-ok s pkt (is_not _ p) in
                          inr (record {
                            authenticated = is_not _ a;
                            has_header = h;
                            is_ipv4 = v;
                            has_address = i;
                            own_source = e;
                            unblocked = u;
                            queued = ap (λ q. (push q pkt).0) c;
                          })
    where
      Either : Server → Type 0
      Either sv' = Quiet sv sv' ⊎ Admitted o out s sv.queue_recv sv'.queue_recv pkt

  -- An authentic frame brings a packet, or leaves the queue alone.
  abbrev Brings : Server → Session → List ℕ → Server → Type 0
  Brings sv s bytes sv' =
      Quiet sv sv'
      ⊎ ((pkt : List ℕ) × (bytes ≡ m_data ∷ pkt)
          × Admitted o out s sv.queue_recv sv'.queue_recv pkt)

  inner-Brings :
      (sv : Server) (s : Session) (bytes : List ℕ)
      → Brings sv s bytes (handle_inner out o ch sv s bytes)
  unfolding handle_inner
  inner-Brings sv s [] = inl refl
  inner-Brings sv s (kind ∷ inner) =
      by_branch To (kind == m_data) _ _
        (λ b.
          brought (handle_data out o sv s inner) ((==_iff kind m_data).0 b)
            (data-Admitted sv s inner))
        λ b.
          by_branch To (kind == m_heart) _ _
            (λ b. inl (sent-Quiet o out sv s m_heart_response [] ch.net))
            λ b.
              by_branch To (kind == m_identity) _ _ (λ b. inl (identity-Quiet o out ch sv s inner))
                λ b.
                  by_branch To (kind == m_disconnect) _ _ (λ b. inl (disconnected-Quiet o out sv s))
                    (λ b. inl refl)
    where
      To : Server → Type 0
      To sv' =
          Quiet sv sv'
          ⊎ ((pkt : List ℕ) × (kind ∷ inner ≡ m_data ∷ pkt)
              × Admitted o out s sv.queue_recv sv'.queue_recv pkt)

      brought :
          (sv' : Server)
          → kind ≡ m_data
          → Quiet sv sv' ⊎ Admitted o out s sv.queue_recv sv'.queue_recv inner
          → To sv'
      brought sv' e (inl q) = inl q
      brought sv' e (inr a) = inr (inner, ap (λ k. k ∷ inner) e, a)

  -- Whatever frame comes in for a session, the queue of packets for the TUN device stays as it is, or
  -- gets one packet more at its end, if it has room: the frame is authentic under the key of the
  -- session and of type data, its sequence number passes the replay window, the session is
  -- authenticated, and the packet in it is an IPv4 packet from the session's own virtual address that
  -- is not on the black list.
  pub framed-Passed :
      (sv : Server) (s : Session) (hdr : Header) (payload : List ℕ)
      → Quiet sv (handle_framed out o ch sv s hdr payload)
        ⊎ Passed o out s hdr payload sv.queue_recv
            (handle_framed out o ch sv s hdr payload).queue_recv
  unfolding handle_framed handle_sealed handle_plain
  framed-Passed sv s hdr payload =
      by_branch Either (not (hdr.version == (if s.is_tcp then 2 else 1))) _ _ (λ b. inl refl)
        λ b.
          by_branch Either (is_sealed hdr.kind) _ _
            (λ b.
              by_branch Either (not s.enc_ready) _ _ (λ c. inl refl)
                λ k.
                  by_branch Either (too_old s.replay hdr.sequence) _ _ (λ d. inl refl)
                    (λ d.
                      unsealed (is_not s.enc_ready k) (out.open_sealed s.key_c2s hdr payload) refl))
            (λ b.
              by_branch Either (hdr.kind == m_auth_hello) _ _
                (λ c. inl (auth_hello-Quiet o out ch sv s payload))
                λ c.
                  by_branch Either (hdr.kind == m_auth_client_hello) _ _
                    (λ d. inl (client_hello-Quiet o out sv s payload)) (λ d. inl refl))
    where
      Either : Server → Type 0
      Either sv' = Quiet sv sv' ⊎ Passed o out s hdr payload sv.queue_recv sv'.queue_recv

      s' : Session
      s' = record s { replay = (accept s.replay hdr.sequence).0; last_rx_ms = ch.now_ms }

      pass :
          s.enc_ready ≡ true
          → (accept s.replay hdr.sequence).1 ≡ true
          → (bytes : List ℕ) → out.open_sealed s.key_c2s hdr payload ≡ bytes
          → (sv' : Server) → Brings (put_session sv s') s' bytes sv'
          → Either sv'
      pass k f bytes e sv' (inl q) = inl q
      pass k f bytes e sv' (inr (pkt, g, a)) = inr (record {
        packet = pkt;
        has_keys = k;
        fresh = f;
        opens = e ∙ g;
        admitted = record {
          authenticated = a.authenticated;
          has_header = a.has_header;
          is_ipv4 = a.is_ipv4;
          has_address = a.has_address;
          own_source = a.own_source;
          unblocked = a.unblocked;
          queued = a.queued;
        };
      })

      unsealed :
          s.enc_ready ≡ true
          → (bytes : List ℕ) → out.open_sealed s.key_c2s hdr payload ≡ bytes
          → Either (opened out o ch sv s hdr.sequence bytes)
      unsealed k [] e = inl refl
      unsealed k (c ∷ cs) e =
          by_branch Either (accept s.replay hdr.sequence).1 _ _
            (λ f.
              pass k f (c ∷ cs) e (handle_inner out o ch (put_session sv s') s' (c ∷ cs))
                (inner-Brings (put_session sv s') s' (c ∷ cs)))
            (λ f. inl refl)
