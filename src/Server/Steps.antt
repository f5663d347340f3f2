-- ===== src/Server/Steps.antt =====
-- The steps of the server of server/UDP/UDP.cpp: what its threads and those of the TCP server do, one
-- call after the other.
use scholar_vpn.Prelude.{ℕ, true, List, [], ◌∷◌}
use scholar_vpn.Vip.{ByteOrder}
use scholar_vpn.Server.{Server, Header, Outside, Chance}
use scholar_vpn.Server.Table.{release_session, get_or_create_session}
use scholar_vpn.Server.Receive.{recv_datagram, recv_frame}
use scholar_vpn.Server.Beat.{heartbeat, send_round, forward_tun_packet}

pub data Event : Type 0 where
  datagram : List ℕ → List ℕ → Header → List ℕ → Event
  -- A connection is accepted, gives a frame, and is closed.
  accepted : List ℕ → List ℕ → Event
  framed : List ℕ → Header → List ℕ → Event
  closed : List ℕ → Event
  beats : Event
  sends : Event
  from_tun : List ℕ → Event

unfoldable pub step : Outside → ByteOrder → Server → Event → Chance → Server
step out o sv (datagram key ip hdr bytes) ch = recv_datagram out o ch sv key ip hdr bytes
step out o sv (accepted key ip) ch = (get_or_create_session o sv key ip true ch.now_ms).0
step out o sv (framed key hdr payload) ch = recv_frame out o ch sv key hdr payload
step out o sv (closed key) ch = release_session out o sv key
step out o sv beats ch = heartbeat out o ch sv
step out o sv sends ch = send_round out o ch sv
step out o sv (from_tun pkt) ch = (forward_tun_packet o sv pkt).0

unfoldable pub run : Outside → ByteOrder → Server → List (Event × Chance) → Server
unfolding step
run out o sv [] = sv
run out o sv ((e, ch) ∷ es) = run out o (step out o sv e ch) es
