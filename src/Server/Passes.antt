-- ===== src/Server/Passes.antt =====
-- `handle_framed` of server/UDP/UDP.cpp: what a frame makes of the queue for the TUN device.
use scholar_vpn.Prelude.{
  ℕ, ◌≡◌, refl, sym, ap, ◌∙◌, Bool, true, false, not, ◌&&◌, List, [], ◌∷◌, Option, some, ◌==◌,
  if◌then◌else◌, length, arith, by_branch, is_not, on_true, on_false,
}
use scholar_vpn.Vip.{ByteOrder}
use scholar_vpn.Replay.{accept, too_old}
use scholar_vpn.Replay.Laws.{too_old_sound}
use scholar_vpn.Queue.Server.{QueueBuffer, push}
use scholar_vpn.Server.{
  Session, Server, Header, Outside, Chance, m_data, m_heart, m_heart_response, m_disconnect,
  m_identity, m_auth_hello, m_auth_client_hello,
}
use scholar_vpn.Server.Table.{put_session}
use scholar_vpn.Server.Receive.{
  tunnel_packet_source_ok, count_traffic, is_blocked, handle_data, handle_inner, is_sealed, opened,
  handle_sealed, handle_plain, handle_framed,
}
use scholar_vpn.Server.Quiet.{
  Quiet, sent-Quiet, counted-Quiet, disconnected-Quiet, auth_hello-Quiet, client_hello-Quiet,
  identity-Quiet,
}
use scholar_vpn.Server.Tun.{source-ok}
use scholar_vpn.Server.Packets.{
  seen, packet_in, takes_frame, takes_packet, push-queued, queue_with, queue_after,
}

both : (a b c d : Bool) → a ≡ true → b ≡ true → c ≡ true → d ≡ true → (a && (b && (c && d))) ≡ true
both a b c d x y z w = ground (arith, x, y, z, w)

no_first : (a b c d : Bool) → a ≡ false → (a && (b && (c && d))) ≡ false
no_first a b c d x = ground (arith, x)

no_second : (a b c d : Bool) → b ≡ false → (a && (b && (c && d))) ≡ false
no_second a b c d x = ground (arith, x)

no_third : (a b c d : Bool) → c ≡ false → (a && (b && (c && d))) ≡ false
no_third a b c d x = ground (arith, x)

no_fourth : (a b c d : Bool) → d ≡ false → (a && (b && (c && d))) ≡ false
no_fourth a b c d x = ground (arith, x)

was_not : (b : Bool) → not b ≡ true → b ≡ false
was_not b x = ground (arith, x)

clash : (b : Bool) → b ≡ true → b ≡ false → true ≡ false
clash b x y = sym x ∙ y

module _ (o : ByteOrder) (out : Outside) (ch : Chance) where
  data-queue :
      (sv : Server) (s : Session) (pkt : List ℕ)
      → (handle_data out o sv s pkt).queue_recv
        ≡ queue_with sv.queue_recv (takes_packet out o sv s) (some pkt)
  unfolding handle_data
  data-queue sv s pkt =
      by_branch Queued (length pkt == 0) _ _
        (λ b. kept (no_second s.authenticated ok counts free (short ok refl b)))
        λ b.
          by_branch Queued (not s.authenticated) _ _
            (λ a. kept (no_first s.authenticated ok counts free (was_not s.authenticated a)))
            λ a.
              by_branch Queued (not ok) _ _
                (λ p. kept (no_second s.authenticated ok counts free (was_not ok p)))
                λ p.
                  by_branch Queued (not counts) _ _
                    (λ g. c ∙ kept (no_third s.authenticated ok counts free (was_not counts g)))
                    λ g.
                      by_branch Queued (is_blocked out pkt) _ _
                        (λ u. c ∙ kept (no_fourth s.authenticated ok counts free (ap not u)))
                        (λ u.
                          ap (λ q. (push q pkt).0) c
                          ∙ push-queued sv.queue_recv pkt
                          ∙ sym (
                              on_true _ _ _ (
                                both s.authenticated ok counts free (is_not _ a) (is_not _ p)
                                  (is_not _ g) (ap not u))))
    where
      Queued : Server → Type 0
      Queued sv' = sv'.queue_recv ≡ queue_with sv.queue_recv (takes_packet out o sv s) (some pkt)

      ok : Bool
      ok = tunnel_packet_source_ok o s pkt

      counts : Bool
      counts = (count_traffic out o sv s (length pkt)).1

      free : Bool
      free = not (is_blocked out pkt)

      c : Quiet sv (count_traffic out o sv s (length pkt)).0
      c = counted-Quiet o out sv s (length pkt)

      kept :
          takes_packet out o sv s pkt ≡ false
          → sv.queue_recv ≡ queue_with sv.queue_recv (takes_packet out o sv s) (some pkt)
      kept e = sym (on_false _ _ _ e)

      short :
          (b : Bool) → tunnel_packet_source_ok o s pkt ≡ b → (length pkt == 0) ≡ true → b ≡ false
      short false e z = refl
      short true e z = let h = (source-ok o out ch s pkt e).0 in absurd (ground (arith, z, h))

  inner-queue :
      (sv : Server) (s : Session) (bytes : List ℕ)
      → (handle_inner out o ch sv s bytes).queue_recv
        ≡ queue_with sv.queue_recv (takes_packet out o sv s) (packet_in bytes)
  unfolding handle_inner
  inner-queue sv s [] = refl
  inner-queue sv s (kind ∷ inner) =
      by_branch Queued (kind == m_data) _ _
        (λ b. data-queue sv s inner ∙ sym (ap with_packet (on_true _ _ _ b)))
        λ b.
          by_branch Queued (kind == m_heart) _ _
            (λ _. sent-Quiet o out sv s m_heart_response [] ch.net ∙ none_in b)
            λ _.
              by_branch Queued (kind == m_identity) _ _
                (λ _. identity-Quiet o out ch sv s inner ∙ none_in b)
                λ _.
                  by_branch Queued (kind == m_disconnect) _ _
                    (λ _. disconnected-Quiet o out sv s ∙ none_in b) (λ _. none_in b)
    where
      with_packet : Option (List ℕ) → QueueBuffer (List ℕ)
      with_packet x = queue_with sv.queue_recv (takes_packet out o sv s) x

      Queued : Server → Type 0
      Queued sv' = sv'.queue_recv ≡ with_packet (packet_in (kind ∷ inner))

      none_in : (kind == m_data) ≡ false → sv.queue_recv ≡ with_packet (packet_in (kind ∷ inner))
      none_in b = sym (ap with_packet (on_false _ _ _ b))

  -- Whatever frame comes in for a session, the queue of packets for the TUN device is what a flat list of
  -- conditions says. It is as it was, unless the frame is sealed, of the right version and new to the
  -- replay window, the session has its keys and is authenticated, the frame opens under its key to a
  -- packet whose source is the session's own address, the traffic does not use up the account, and the
  -- packet is not on the black list; then the packet stands at the end of the queue, which stays as it
  -- was if it is shut down or holds more than its size.
  pub framed-queue :
      (sv : Server) (s : Session) (hdr : Header) (payload : List ℕ)
      → (handle_framed out o ch sv s hdr payload).queue_recv ≡ queue_after out o ch sv s hdr payload
  unfolding handle_framed handle_sealed handle_plain
  framed-queue sv s hdr payload =
      by_branch Queued (not right) _ _
        (λ b. kept (no_first right sealed s.enc_ready new (was_not right b)))
        λ v.
          by_branch Queued sealed _ _
            (λ b.
              by_branch Queued (not s.enc_ready) _ _
                (λ e. kept (no_third right sealed s.enc_ready new (was_not s.enc_ready e)))
                λ e.
                  by_branch Queued (too_old s.replay hdr.sequence) _ _
                    (λ d. kept (
                      no_fourth right sealed s.enc_ready new
                        (ap (λ x. x.1) (too_old_sound s.replay hdr.sequence d))))
                    (λ d.
                      unsealed (is_not right v) b (is_not s.enc_ready e)
                        (out.open_sealed s.key_c2s hdr payload) refl))
            (λ b.
              let e = kept (no_second right sealed s.enc_ready new b) in
              by_branch Queued (hdr.kind == m_auth_hello) _ _
                (λ c. auth_hello-Quiet o out ch sv s payload ∙ e)
                λ c.
                  by_branch Queued (hdr.kind == m_auth_client_hello) _ _
                    (λ d. client_hello-Quiet o out sv s payload ∙ e) (λ d. e))
    where
      Queued : Server → Type 0
      Queued sv' = sv'.queue_recv ≡ queue_after out o ch sv s hdr payload

      right : Bool
      right = hdr.version == (if s.is_tcp then 2 else 1)

      sealed : Bool
      sealed = is_sealed hdr.kind

      new : Bool
      new = (accept s.replay hdr.sequence).1

      s' : Session
      s' = seen ch s hdr.sequence

      with_bytes : List ℕ → QueueBuffer (List ℕ)
      with_bytes bytes =
          queue_with sv.queue_recv (takes_packet out o (put_session sv s') s') (packet_in bytes)

      kept : takes_frame s hdr ≡ false → sv.queue_recv ≡ queue_after out o ch sv s hdr payload
      kept e = sym (on_false _ _ _ e)

      nothing :
          (b : Bool)
          → out.open_sealed s.key_c2s hdr payload ≡ []
          → sv.queue_recv
            ≡ (if b then with_bytes (out.open_sealed s.key_c2s hdr payload) else sv.queue_recv)
      nothing true f = sym (ap with_bytes f)
      nothing false f = refl

      unsealed :
          right ≡ true
          → sealed ≡ true
          → s.enc_ready ≡ true
          → (bytes : List ℕ) → out.open_sealed s.key_c2s hdr payload ≡ bytes
          → Queued (opened out o ch sv s hdr.sequence bytes)
      unsealed v b e [] f = nothing (takes_frame s hdr) f
      unsealed v b e (c ∷ cs) f =
          by_branch Queued new _ _
            (λ n.
              inner-queue (put_session sv s') s' (c ∷ cs)
              ∙ sym (ap with_bytes f)
              ∙ sym (on_true _ _ _ (both right sealed s.enc_ready new v b e n)))
            (λ n. kept (no_fourth right sealed s.enc_ready new n))
