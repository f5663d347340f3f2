-- ===== src/Tcp/Tests.antt =====
-- Two frames over a connection that takes and gives their bytes in parts.
use scholar_vpn.Prelude.{
  ℕ, zero, suc, length, Bool, ◌≡◌, refl, true, false, List, [], ◌∷◌, ◌++◌, take, drop, bytes_eq,
  none, some, arith,
}
use scholar_vpn.Replay.{fresh, too_old, accept}
use scholar_vpn.Queue.Server.{create, push}
use scholar_vpn.Server.{Server, Header, m_data, m_heart}
use scholar_vpn.Server.Table.{find, new_session, store}
use scholar_vpn.Server.Receive.{recv_frame}
use scholar_vpn.Server.Tests.{outside, big_endian, chance, server, client}
use scholar_vpn.Tcp.{SendResult, took, again, late}
use scholar_vpn.Tcp.Send.{waiting, flush_tx_pending, write, raw_send, send_frames}
use scholar_vpn.Tcp.Stream.{frames_of, send_frames-stream}
use scholar_vpn.Tcp.Recv.{RecvResult, timed_out, received, recv_work}
use scholar_vpn.Tcp.Server.{Served, take_head, serve_taken, split_frames, read_conn}
use scholar_vpn.Tcp.Output.{Out, move_frames, send_out, shrink, subscribe, flush_conn_tx}
use scholar_vpn.Tcp.Written.{Written, flush_conn_tx-Written}
use scholar_vpn.Tcp.Serves.{Serves, read_conn-Serves}
use scholar_vpn.Tcp.Loop.{incoming}
use scholar_vpn.Tcp.Frames.{encode}
use scholar_vpn.Tcp.Pair.{fresh_tx, fresh_rx, frames, calls, sent_received}

abbrev header_with : ℕ → ℕ → ℕ → Header
header_with kind n seq = record { version = 2; kind = kind; payload_len = n; sequence = seq }

-- The second call writes what the first one left, and then its own bytes.
abbrev two : List ((Header × List ℕ) × List SendResult)
two =
    ((header_with m_data 2 258, 7 ∷ 8 ∷ []), took 5 ∷ again ∷ late ∷ [])
    ∷ ((header_with m_heart 0 259, []), took 7 ∷ again ∷ took 14 ∷ [])
    ∷ []

abbrev bytes : List ℕ
bytes = encode (header_with m_data 2 258, 7 ∷ 8 ∷ []) ++ encode (header_with m_heart 0 259, [])

abbrev pieces : List RecvResult
pieces = received (take 3 bytes) ∷ timed_out ∷ received (drop 3 bytes) ∷ []

send_frames-stream_example :
    (send_frames fresh_tx (calls two)).wire ++ waiting (send_frames fresh_tx (calls two))
    ≡ ([] ++ []) ++ frames_of (calls two)
unfolding send_frames raw_send flush_tx_pending write
send_frames-stream_example = send_frames-stream fresh_tx (calls two) refl

sent_received_example :
    ((recv_work 50 fresh_rx pieces).0 ≡ frames two)
    × ((recv_work 50 fresh_rx pieces).1.need_reconnect ≡ false)
unfolding send_frames raw_send flush_tx_pending write
sent_received_example =
    sent_received two pieces 50
      (
        record { version = refl; len = refl; few = omega arith; word = omega arith },
        (record { version = refl; len = refl; few = omega arith; word = omega arith }, tt),
      )
      refl refl (refl, (refl, (refl, tt))) refl (omega arith)

-- A server that writes the frames down, the latest first.
abbrev note : List (Header × List ℕ) → Header → List ℕ → List (Header × List ℕ) × Bool
note log h p = ((h, p) ∷ log, false)

-- The server of the program, with one session over TCP, and whether the connection is to go.
abbrev one_session : Server
one_session = record server { sessions = record client { is_tcp = true } ∷ [] }

abbrev serve_one : Server → Header → List ℕ → Server × Bool
serve_one sv hdr payload =
    let sv' = recv_frame outside big_endian (chance 5) sv client.peer_key hdr payload in
    (sv', elim (find sv'.sessions client.peer_key) [ none ↦ true | some s ↦ s.tcp_drop ])

read_conn-Serves_example :
    Serves serve_one 64 one_session
      (incoming (read_conn serve_one 64 one_session [] pieces).1)
      (frames two)
      (read_conn serve_one 64 one_session [] pieces).0
unfolding recv_frame too_old accept fresh push create find bytes_eq new_session store
read_conn-Serves_example =
    read_conn-Serves serve_one 64 one_session [] pieces (frames two)
      (
        record { version = refl; len = refl; few = omega arith; word = omega arith },
        (record { version = refl; len = refl; few = omega arith; word = omega arith }, tt),
      )
      (refl, (refl, tt)) (refl, (refl, (refl, tt))) (omega arith, (tt, (omega arith, tt)))
      (omega arith) refl

abbrev beats : ℕ → List ℕ
beats zero = []
beats (suc n) = encode (header_with m_heart 0 n, []) ++ beats n

-- The 65th of the frames that come at once waits, and a call without new bytes does not serve it.
abbrev at_once : Served (List (Header × List ℕ))
at_once = (read_conn note 64 [] [] (received (beats 65) ∷ [])).0

abbrev next_round : Served (List (Header × List ℕ))
next_round = (read_conn note 64 at_once.state at_once.rx_buf (timed_out ∷ [])).0

one_waits :
    (length at_once.state ≡ 64) × (length at_once.rx_buf ≡ 12) × (length next_round.state ≡ 64)
unfolding read_conn split_frames take_head serve_taken
one_waits = (refl, refl, refl)

-- 5 of 7 bytes are out, and epoll tells nothing yet; the socket takes 6 more.
abbrev half : Out
half = record {
  tx_buf = 1 ∷ 2 ∷ 3 ∷ 4 ∷ 5 ∷ 6 ∷ 7 ∷ [];
  tx_off = 5;
  want_epollout = false;
  wire = [];
}

flush_conn_tx-Written_example :
    Written half
      ((8 ∷ 9 ∷ []) ∷ (10 ∷ 11 ∷ 12 ∷ []) ∷ [])
      (flush_conn_tx half
        ((8 ∷ 9 ∷ []) ∷ (10 ∷ 11 ∷ 12 ∷ []) ∷ [])
        (took 6 ∷ again ∷ late ∷ [])
        true).0
unfolding flush_conn_tx move_frames send_out shrink subscribe
flush_conn_tx-Written_example =
    flush_conn_tx-Written half ((8 ∷ 9 ∷ []) ∷ (10 ∷ 11 ∷ 12 ∷ []) ∷ [])
      (took 6 ∷ again ∷ late ∷ []) true (omega arith) refl
