-- ===== src/Client/Closing.antt =====
-- The second part of `send_work` of src/UDP.cpp, from the client's identity on.
use scholar_vpn.Prelude.{
  ℕ, ◌+◌, ◌-◌, ◌^◌, ◌<◌, ◌≡◌, ◌∙◌, Bool, true, not, ◌&&◌, ◌||◌, List, [], ltb, leb, length, arith,
  by_branch, is_not,
}
use scholar_vpn.Queue.{PopResult, got, timeout, shut_down, pop_until}
use scholar_vpn.Server.{m_data, m_heart, m_disconnect, m_identity, m_auth_client_hello}
use scholar_vpn.Server.Auth.{is_empty}
use scholar_vpn.Client.{Client, Crypto, Turn, hs_send_fin}
use scholar_vpn.Client.Send.{sends}
use scholar_vpn.Client.Work.{
  k_heartbeat_interval, Stage, hello_wait, identity_wait, flowing, ended, Verdict, give_up, resend,
  idle, wait_round, after_identity, send_identity, identity_turn, finish, send_data, take_packet,
  is_silent, watch, flow_turn, work,
}
use scholar_vpn.Client.Sound.{Arrivals, IsSound, IsSound-weaken}
use scholar_vpn.Client.Opening.{Fits, Goes, sends-Sent, stays, over, hello_turn-Goes}

module _ {S : Arrivals} (k : Crypto) (m : ℕ) (room : m + 2 < 2 ^ 32) where
  two : (c : Client) → IsSound k S (m + 1 + 1) c → IsSound k S (m + 2) c
  two c v = IsSound-weaken (m + 1 + 1) (m + 2) c (omega arith) v

  after_identity-Goes :
      (c : Client) (t : Turn) → IsSound k S m c → Goes k S (m + 2) (after_identity c t)
  unfolding after_identity
  after_identity-Goes c t v =
      by_branch (Goes k S (m + 2)) (not c.authenticated) _ _
        (λ _. record { sound = stays k m room c v; fits = tt })
        λ e.
          let a = is_not c.authenticated e in
          let w = stays k m room c v in
          record {
            sound = record {
              hello = w.hello;
              keys = w.keys;
              done = λ _. a;
              greeted = w.greeted;
              let_in = w.let_in;
              count = w.count;
              confidential = w.confidential;
              descending = w.descending;
            };
            fits = v.keys a;
          }

  send_identity-Sent :
      (c : Client) (t : Turn) (msg : List ℕ)
      → c.enc_ready ≡ true
      → IsSound k S m c
      → Goes k S (m + 2) (send_identity c t msg, identity_wait 0 0 0 msg)
  unfolding send_identity
  send_identity-Sent c t msg h v =
      by_branch After (is_empty c.dh_cli_pub) _ _
        (λ _. last c h (IsSound-weaken m (m + 1) c (omega arith) v))
        λ _.
          let s =
            sends-Sent m (omega (arith, room)) c m_auth_client_hello c.dh_cli_pub t.net
              (λ x. absurd (ground (arith, x))) v in
          last (sends c m_auth_client_hello c.dh_cli_pub t.net) (s.ready ∙ h) s.sound
    where
      After : Client → Type 0
      After c' = Goes k S (m + 2) (sends c' m_identity msg t.net_next, identity_wait 0 0 0 msg)

      last : (c' : Client) → c'.enc_ready ≡ true → IsSound k S (m + 1) c' → After c'
      last c' g w =
          let s =
            sends-Sent (m + 1) (omega (arith, room)) c' m_identity msg t.net_next (λ _. g) w in
          record { sound = two (sends c' m_identity msg t.net_next) s.sound; fits = s.ready ∙ g }

  identity_turn-Goes :
      (c : Client) (t : Turn) (start last retries : ℕ) (msg : List ℕ)
      → c.enc_ready ≡ true
      → IsSound k S m c
      → Goes k S (m + 2) (identity_turn c t start last retries msg)
  unfolding identity_turn
  identity_turn-Goes c t start last retries msg h v =
      by_branch (Goes k S (m + 2))
        (c.running && (not c.authenticated && (not c.auth_failed && not c.need_reconnect))) _ _
        (λ _. waits (wait_round start last retries t.now_ms)) (λ _. after_identity-Goes c t v)
    where
      waits :
          (x : Verdict)
          → Goes k S (m + 2) (elim x [
            | give_up ↦ after_identity (record c { need_reconnect = true }) t
            | resend ↦ (send_identity c t msg, identity_wait start t.now_ms (retries + 1) msg)
            | idle ↦ (c, identity_wait start last retries msg)
          ])
      waits give_up = after_identity-Goes (record c { need_reconnect = true }) t v
      waits resend =
          let r = send_identity-Sent c t msg h v in record { sound = r.sound; fits = r.fits }
      waits idle = record { sound = stays k m room c v; fits = h }

  finish-Goes : (c : Client) (t : Turn) → IsSound k S (m + 1) c → Goes k S (m + 2) (finish c t)
  unfolding finish
  finish-Goes c t v =
      by_branch (Goes k S (m + 2)) (c.handshaked && not c.need_reconnect) _ _
        (λ e.
          let d = record c { hs_state = hs_send_fin } in
          let s =
            sends-Sent (m + 1) (omega (arith, room)) d m_disconnect [] t.net_next
              (λ _. v.keys (v.done (first c.handshaked _ e))) v in
          record { sound = two (sends d m_disconnect [] t.net_next) s.sound; fits = tt })
        (λ _. record { sound = over k m room c v; fits = tt })
    where
      first : (a b : Bool) → (a && b) ≡ true → a ≡ true
      first a b e = ground (arith, e)

  send_data-Goes :
      (c : Client) (t : Turn) (heart : ℕ) (pkt : List ℕ)
      → c.enc_ready ≡ true
      → IsSound k S (m + 1) c
      → Goes k S (m + 2) (send_data c t pkt, flowing heart)
  unfolding send_data
  send_data-Goes c t heart pkt h v =
      by_branch Flows (is_empty pkt) _ _ (λ _. same)
        λ _.
          by_branch Flows (ltb 1400 (length pkt)) _ _ (λ _. same)
            λ _.
              let s = sends-Sent (m + 1) (omega (arith, room)) c m_data pkt t.net_next (λ _. h) v in
              record { sound = two (sends c m_data pkt t.net_next) s.sound; fits = s.ready ∙ h }
    where
      Flows : Client → Type 0
      Flows c' = Goes k S (m + 2) (c', flowing heart)

      same : Flows c
      same = record { sound = over k m room c v; fits = h }

  take_packet-Goes :
      (c : Client) (t : Turn) (heart : ℕ)
      → c.enc_ready ≡ true
      → IsSound k S (m + 1) c
      → Goes k S (m + 2) (take_packet c t heart)
  unfolding take_packet
  take_packet-Goes c t heart h v = popped (pop_until c.sendqueue t.later t.woke).1
    where
      popped :
          (r : PopResult (List ℕ))
          → Goes k S (m + 2) (elim r [
            | shut_down ↦
                finish (record c { sendqueue = (pop_until c.sendqueue t.later t.woke).0 }) t
            | timeout ↦
                (record c { sendqueue = (pop_until c.sendqueue t.later t.woke).0 }, flowing heart)
            | got pkt ↦ (
              send_data (record c { sendqueue = (pop_until c.sendqueue t.later t.woke).0 }) t pkt,
              flowing heart,
            )
          ])
      popped shut_down = finish-Goes _ t v
      popped timeout = record { sound = over k m room c v; fits = h }
      popped (got pkt) = send_data-Goes _ t heart pkt h v

  watch-Goes :
      (c : Client) (t : Turn) (heart : ℕ)
      → c.enc_ready ≡ true
      → IsSound k S (m + 1) c
      → Goes k S (m + 2) (watch c t heart)
  unfolding watch
  watch-Goes c t heart h v =
      by_branch (Goes k S (m + 2)) (is_silent c t.now_ms) _ _
        (λ _. finish-Goes (record c { need_reconnect = true }) t v)
        (λ _. take_packet-Goes c t heart h v)

  flow_turn-Goes :
      (c : Client) (t : Turn) (heart : ℕ)
      → c.enc_ready ≡ true
      → IsSound k S m c
      → Goes k S (m + 2) (flow_turn c t heart)
  unfolding flow_turn
  flow_turn-Goes c t heart h v =
      by_branch (Goes k S (m + 2)) (not c.running || c.need_reconnect) _ _
        (λ _. finish-Goes c t (IsSound-weaken m (m + 1) c (omega arith) v))
        λ _.
          by_branch (Goes k S (m + 2)) (leb k_heartbeat_interval (t.now_ms - heart)) _ _
            (λ _.
              let s = sends-Sent m (omega (arith, room)) c m_heart [] t.net (λ _. h) v in
              watch-Goes (sends c m_heart [] t.net) t t.now_ms (s.ready ∙ h) s.sound)
            (λ _. watch-Goes c t heart h (IsSound-weaken m (m + 1) c (omega arith) v))

  pub work-Goes :
      (c : Client) (t : Turn) (s : Stage)
      → Fits c s
      → IsSound k S m c
      → Goes k S (m + 2) (work k c t s)
  unfolding work
  work-Goes c t (hello_wait start last retries) h v =
      hello_turn-Goes k m room c t start last retries h v
  work-Goes c t (identity_wait start last retries msg) h v =
      identity_turn-Goes c t start last retries msg h v
  work-Goes c t (flowing heart) h v = flow_turn-Goes c t heart h v
  work-Goes c t ended h v = record { sound = stays k m room c v; fits = tt }
