-- ===== src/Server/Packets.antt =====
-- `handle_framed` of server/UDP/UDP.cpp: when a packet goes to the TUN device, as flat conditions.
use scholar_vpn.Prelude.{
  ℕ, ◌≡◌, sym, Bool, true, false, not, ◌&&◌, ◌||◌, List, [], ◌∷◌, ◌++◌, Option, none, some, ◌==◌,
  ltb, if◌then◌else◌, length, arith, by_branch, on_true, on_false,
}
use scholar_vpn.Vip.{ByteOrder}
use scholar_vpn.Replay.{accept}
use scholar_vpn.Queue.Server.{QueueBuffer, push}
use scholar_vpn.Server.{Session, Server, Header, Outside, Chance, m_data}
use scholar_vpn.Server.Table.{put_session}
use scholar_vpn.Server.Receive.{tunnel_packet_source_ok, count_traffic, is_blocked, is_sealed}

-- The session behind a frame that passed the window.
abbrev pub seen : Chance → Session → ℕ → Session
seen ch s seq = record s { replay = (accept s.replay seq).0; last_rx_ms = ch.now_ms }

-- The packet in the decrypted bytes.
abbrev pub packet_in : List ℕ → Option (List ℕ)
packet_in [] = none
packet_in (kind ∷ pkt) = if kind == m_data then some pkt else none

-- A sealed frame of the right version, new to the window of a session with keys.
abbrev pub takes_frame : Session → Header → Bool
takes_frame s hdr =
    (hdr.version == (if s.is_tcp then 2 else 1))
    && (is_sealed hdr.kind && (s.enc_ready && (accept s.replay hdr.sequence).1))

-- A packet of an authenticated session from its own address, within its account, that is not on the
-- black list.
abbrev pub takes_packet : Outside → ByteOrder → Server → Session → List ℕ → Bool
takes_packet out o sv s pkt =
    s.authenticated
    && (tunnel_packet_source_ok o s pkt
        && ((count_traffic out o sv s (length pkt)).1 && not (is_blocked out pkt)))

-- A packet more at the end of the queue, if that is neither shut down nor full.
abbrev pub queued : QueueBuffer (List ℕ) → List ℕ → QueueBuffer (List ℕ)
queued q pkt =
    if q.stopped || ltb q.max_size (length q.queue)
    then q
    else record q { queue = q.queue ++ (pkt ∷ []) }

pub push-queued : (q : QueueBuffer (List ℕ)) (pkt : List ℕ) → (push q pkt).0 ≡ queued q pkt
unfolding push
push-queued q pkt =
    by_branch Pushed q.stopped _ _ (λ e. sym (on_true _ _ _ (either_first q.stopped full e)))
      λ e.
        by_branch Pushed full _ _ (λ f. sym (on_true _ _ _ (either_second q.stopped full f)))
          (λ f. sym (on_false _ _ _ (neither q.stopped full e f)))
  where
    full : Bool
    full = ltb q.max_size (length q.queue)

    Pushed : QueueBuffer (List ℕ) × Bool → Type 0
    Pushed r = r.0 ≡ queued q pkt

    either_first : (a b : Bool) → a ≡ true → (a || b) ≡ true
    either_first a b e = ground (arith, e)

    either_second : (a b : Bool) → b ≡ true → (a || b) ≡ true
    either_second a b e = ground (arith, e)

    neither : (a b : Bool) → a ≡ false → b ≡ false → (a || b) ≡ false
    neither a b e f = ground (arith, e, f)

abbrev pub queue_with :
    QueueBuffer (List ℕ) → (List ℕ → Bool) → Option (List ℕ) → QueueBuffer (List ℕ)
queue_with q takes none = q
queue_with q takes (some pkt) = if takes pkt then queued q pkt else q

-- The two together.
abbrev pub queue_after :
    Outside → ByteOrder → Chance → Server → Session → Header → List ℕ → QueueBuffer (List ℕ)
queue_after out o ch sv s hdr payload =
    if takes_frame s hdr
    then (let s' = seen ch s hdr.sequence in
        queue_with sv.queue_recv (takes_packet out o (put_session sv s') s')
          (packet_in (out.open_sealed s.key_c2s hdr payload)))
    else sv.queue_recv
