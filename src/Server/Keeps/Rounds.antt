-- ===== src/Server/Keeps/Rounds.antt =====
-- Every step of the server of server/UDP/UDP.cpp keeps the invariant.
use scholar_vpn.Prelude.{
  ℕ, zero, suc, ◌*◌, ◌/◌, ◌%◌, refl, sym, ap, ◌∙◌, subst, Bool, true, false, not, ◌&&◌, ◌||◌, List,
  [], ◌∷◌, ◌++◌, Option, none, some, ltb, ◌==◌, contains, length, take, Distinct, by_branch,
  by_option,
}
use scholar_vpn.Vip.{ByteOrder}
use scholar_vpn.Queue.Server.{push, pop}
use scholar_vpn.Server.{Session, Server, Header, Outside, Chance, m_data, m_heart, m_disconnect}
use scholar_vpn.Server.Table.{find, put_session, get_or_create_session}
use scholar_vpn.Server.Send.{send_packet}
use scholar_vpn.Server.Identity.{byte_at}
use scholar_vpn.Server.Receive.{address_at, handle_framed, recv_datagram, recv_frame}
use scholar_vpn.Server.Beat.{
  elapsed, k_handshake_timeout, k_heartbeat_timeout, k_session_max_lifetime_ms, destroy,
  destroy_key, beat_one, beat_all, keys, flush_all, bills, blocked_keys, settle, heartbeat, key_of,
  deliver, forward_tun_packet, send_one, drain_queue, drain_all, send_round,
}
use scholar_vpn.Server.Steps.{
  Event, datagram, accepted, framed, closed, beats, sends, from_tun, step, run,
}
use scholar_vpn.Server.Held.{Present, find-Present}
use scholar_vpn.Server.Valid.{IsValid, put-IsValid, release_session-IsValid, release_all-IsValid}
use scholar_vpn.Server.Keeps.Sends.{find-Good, send_packet-IsValid, put_send-IsValid}
use scholar_vpn.Server.Keeps.Flush.{held-flush, flush-Good, flush-Seats}
use scholar_vpn.Server.Keeps.Rooms.{Found, created-Found, created-IsValid}
use scholar_vpn.Server.Keeps.Frames.{count_traffic-IsValid, drop-IsValid, framed-IsValid}

module _ (o : ByteOrder) (out : Outside) (ch : Chance) where
  settle-IsValid : (sv : Server) → IsValid o sv → IsValid o (settle out o sv)
  unfolding settle
  settle-IsValid sv v =
      by_option (IsValid o) out.service _ _ (λ d. v)
        (λ svc d. release_all-IsValid o out _ (blocked_keys svc sv.sessions) flushed)
    where
      flushed :
          IsValid o (record sv {
            billed = bills sv.sessions ++ sv.billed;
            sessions = flush_all sv.sessions;
          })
      flushed =
          let same = held-flush o sv.sessions in
          record {
            pool = v.pool;
            has_pool = v.has_pool;
            pool_ok = v.pool_ok;
            spans = v.spans;
            exact = λ a. v.exact a ∙ ap (λ l. contains l a) (sym same);
            distinct = subst Distinct (sym same) v.distinct;
            good = flush-Good sv.sessions v.good;
            seats = flush-Seats sv.max_clients sv.sessions v.seats;
          }

  destroy-IsValid :
      (sv : Server) (s : Session)
      → IsValid o sv
      → Present sv.sessions s
      → IsValid o (destroy out o sv s)
  unfolding destroy
  destroy-IsValid sv s v e =
      by_branch (IsValid o) s.is_tcp _ _ (λ b. drop-IsValid o out sv s v e)
        (λ b. release_session-IsValid o out sv s.peer_key v)

  destroy_key-IsValid :
      (sv : Server) (key : List ℕ) → IsValid o sv → IsValid o (destroy_key out o sv key)
  destroy_key-IsValid sv key v =
      by_option (IsValid o) (find sv.sessions key) _ _ (λ e. v)
        (λ s e. destroy-IsValid sv s v (find-Present sv.sessions key s e))

  beat_one-IsValid :
      (sv : Server) (s : Session)
      → IsValid o sv
      → Present sv.sessions s
      → IsValid o (beat_one out o ch sv s)
  unfolding beat_one
  beat_one-IsValid sv s v e =
      by_branch (IsValid o) (not s.authenticated) _ _
        (λ b.
          by_branch (IsValid o) (ltb k_handshake_timeout (elapsed ch.now_ms s.created_at_ms)) _ _
            (λ c. destroy-IsValid sv s v e) (λ c. v))
        λ b.
          by_branch (IsValid o)
            (not (s.last_rx_ms == 0) && ltb k_heartbeat_timeout (elapsed ch.now_ms s.last_rx_ms)) _
            _ (λ c. destroy-IsValid sv s v e)
            λ c.
              by_branch (IsValid o)
                (ltb k_session_max_lifetime_ms (elapsed ch.now_ms s.created_at_ms)) _ _
                (λ d.
                  destroy_key-IsValid (send_packet out o sv s m_disconnect [] ch.net).0 s.peer_key
                    (send_packet-IsValid o out sv s m_disconnect [] ch.net v e))
                (λ d. send_packet-IsValid o out sv s m_heart [] ch.net v e)

  beat_all-IsValid :
      (ks : List (List ℕ)) (sv : Server) → IsValid o sv → IsValid o (beat_all out o ch sv ks)
  unfolding beat_all
  beat_all-IsValid [] sv v = v
  beat_all-IsValid (k ∷ ks) sv v =
      by_option (IsValid o) (find sv.sessions k) _ _ (λ e. beat_all-IsValid ks sv v)
        (λ s e.
          beat_all-IsValid ks (beat_one out o ch sv s)
            (beat_one-IsValid sv s v (find-Present sv.sessions k s e)))

  heartbeat-IsValid : (sv : Server) → IsValid o sv → IsValid o (heartbeat out o ch sv)
  unfolding heartbeat
  heartbeat-IsValid sv v =
      beat_all-IsValid (keys (settle out o sv).sessions) (settle out o sv) (settle-IsValid sv v)

  abbrev Delivered : Server × Bool → Type 0
  Delivered r = IsValid o r.0

  deliver-IsValid :
      (sv : Server) (k : Option (List ℕ)) (pkt : List ℕ)
      → IsValid o sv
      → IsValid o (deliver sv k pkt).0
  unfolding deliver
  deliver-IsValid sv none pkt v = v
  deliver-IsValid sv (some key) pkt v =
      by_option Delivered (find sv.sessions key) _ _ (λ e. v)
        λ s e.
          let p = find-Present sv.sessions key s e in
          by_branch Delivered s.authenticated _ _
            (λ b.
              put-IsValid o sv s (record s { send_queue = (push s.send_queue pkt).0 }) v p refl
                (refl, refl, refl) (find-Good o sv s v p))
            (λ b. v)

  forward-IsValid :
      (sv : Server) (pkt : List ℕ) → IsValid o sv → IsValid o (forward_tun_packet o sv pkt).0
  unfolding forward_tun_packet
  forward-IsValid sv pkt v =
      by_branch Delivered (ltb (length pkt) 20) _ _ (λ b. v)
        λ b.
          by_branch Delivered (not (byte_at pkt 0 / 16 == 4)) _ _ (λ b. v)
            λ b.
              by_branch Delivered
                (ltb (byte_at pkt 0 % 16) 5 || ltb (length pkt) (byte_at pkt 0 % 16 * 4)) _ _
                (λ b. v)
                (λ b.
                  deliver-IsValid sv (key_of sv.vips.vip_to_key (o.htonl (address_at pkt 16))) pkt
                    v)

  send_one-IsValid :
      (sv : Server) (s : Session) (q : _) (pkt : List ℕ)
      → IsValid o sv
      → Present sv.sessions s
      → IsValid o (send_one out o ch sv (record s { send_queue = q }) pkt)
  unfolding send_one
  send_one-IsValid sv s q pkt v e =
      let t : Session = record s { send_queue = q } in
      let g = find-Good o sv s v e in
      let sent = put_send-IsValid o out sv s t m_data pkt ch.net v e refl (refl, refl, refl) g in
      let sv' = (send_packet out o (put_session sv t) t m_data pkt ch.net).0 in
      by_branch (IsValid o) ((length pkt == 0) || ltb 1400 (length pkt)) _ _
        (λ b. put-IsValid o sv s t v e refl (refl, refl, refl) g)
        λ b.
          by_option (IsValid o) (find sv'.sessions s.peer_key) _ _ (λ d. sent)
            (λ u d.
              count_traffic-IsValid o out sv' u (length pkt) sent
                (find-Present sv'.sessions s.peer_key u d))

  drain_queue-IsValid :
      (n : ℕ) (sv : Server) (key : List ℕ)
      → IsValid o sv
      → IsValid o (drain_queue out o ch n sv key)
  unfolding drain_queue
  drain_queue-IsValid zero sv key v = v
  drain_queue-IsValid (suc n) sv key v =
      by_option (IsValid o) (find sv.sessions key) _ _ (λ e. v)
        λ s e.
          by_branch (IsValid o) (s.handshaked && s.enc_ready) _ _
            (λ b.
              by_option (IsValid o) (pop s.send_queue).1 _ _ (λ d. v)
                (λ pkt d.
                  drain_queue-IsValid n
                    (send_one out o ch sv (record s { send_queue = (pop s.send_queue).0 }) pkt) key
                    (send_one-IsValid sv s (pop s.send_queue).0 pkt v
                      (find-Present sv.sessions key s e))))
            (λ b. v)

  drain_all-IsValid :
      (ks : List (List ℕ)) (sv : Server) → IsValid o sv → IsValid o (drain_all out o ch sv ks)
  unfolding drain_all
  drain_all-IsValid [] sv v = v
  drain_all-IsValid (k ∷ ks) sv v =
      drain_all-IsValid ks (drain_queue out o ch 256 sv k) (drain_queue-IsValid 256 sv k v)

  datagram-IsValid :
      (sv : Server) (key ip : List ℕ) (hdr : Header) (bytes : List ℕ)
      → IsValid o sv
      → IsValid o (recv_datagram out o ch sv key ip hdr bytes)
  unfolding recv_datagram
  datagram-IsValid sv key ip hdr bytes v =
      by_branch (IsValid o) (ltb 1429 hdr.payload_len || ltb (length bytes) hdr.payload_len) _ _
        (λ b. v)
        (λ b.
          handled (get_or_create_session o sv key ip false ch.now_ms)
            (created-Found o sv key ip false ch.now_ms v))
    where
      handled :
          (r : Server × Option Session)
          → Found o r
          → IsValid o (elim r.1 [
            | none ↦ r.0
            | some s ↦ handle_framed out o ch r.0 s hdr (take hdr.payload_len bytes)
          ])
      handled (sv', none) f = f
      handled (sv', some s) f =
          framed-IsValid o out ch sv' s hdr (take hdr.payload_len bytes) f.0 f.1

  frame-IsValid :
      (sv : Server) (key : List ℕ) (hdr : Header) (payload : List ℕ)
      → IsValid o sv
      → IsValid o (recv_frame out o ch sv key hdr payload)
  unfolding recv_frame
  frame-IsValid sv key hdr payload v =
      by_option (IsValid o) (find sv.sessions key) _ _ (λ e. v)
        (λ s e. framed-IsValid o out ch sv s hdr payload v (find-Present sv.sessions key s e))

  step-IsValid : (sv : Server) (e : Event) → IsValid o sv → IsValid o (step out o sv e ch)
  unfolding step send_round
  step-IsValid sv (datagram key ip hdr bytes) v = datagram-IsValid sv key ip hdr bytes v
  step-IsValid sv (accepted key ip) v =
      created-IsValid o (get_or_create_session o sv key ip true ch.now_ms)
        (created-Found o sv key ip true ch.now_ms v)
  step-IsValid sv (framed key hdr payload) v = frame-IsValid sv key hdr payload v
  step-IsValid sv (closed key) v = release_session-IsValid o out sv key v
  step-IsValid sv beats v = heartbeat-IsValid sv v
  step-IsValid sv sends v = drain_all-IsValid (keys sv.sessions) sv v
  step-IsValid sv (from_tun pkt) v = forward-IsValid sv pkt v

-- Whatever datagrams, connections and frames arrive, beats pass and packets come from the TUN device:
-- if at first the addresses in use are exactly those of the sessions in the table, no two sessions
-- hold the same one, each authenticated session has keys and an address other than 0, no two sessions
-- have one key, no source has more than 8 and the table is not above its limit, then all of this holds
-- at the end.
pub run-IsValid :
    (o : ByteOrder) (out : Outside) (es : List (Event × Chance)) (sv : Server)
    → IsValid o sv
    → IsValid o (run out o sv es)
unfolding run
run-IsValid o out [] sv v = v
run-IsValid o out ((e, ch) ∷ es) sv v =
    run-IsValid o out es (step out o sv e ch) (step-IsValid o out ch sv e v)
