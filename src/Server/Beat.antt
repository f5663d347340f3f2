-- ===== src/Server/Beat.antt =====
-- `heartbeat_work`, `send_work` and `forward_tun_packet` of server/UDP/UDP.cpp.
use scholar_vpn.Prelude.{
  ℕ, zero, suc, ◌+◌, ◌-◌, ◌*◌, ◌/◌, ◌%◌, ◌^◌, Bool, true, false, not, ◌&&◌, ◌||◌, List, [], ◌∷◌,
  ◌++◌, Option, none, some, ltb, ◌==◌, if◌then◌else◌, length,
}
use scholar_vpn.Vip.{ByteOrder}
use scholar_vpn.Queue.Server.{push, pop}
use scholar_vpn.Server.{Session, Server, Outside, Service, Chance, m_data, m_heart, m_disconnect}
use scholar_vpn.Server.Table.{find, put_session, release_session, release_all}
use scholar_vpn.Server.Send.{send_packet}
use scholar_vpn.Server.Identity.{byte_at}
use scholar_vpn.Server.Receive.{count_traffic, address_at}

abbrev pub k_heartbeat_timeout : ℕ
k_heartbeat_timeout = 30 * 1000

abbrev pub k_handshake_timeout : ℕ
k_handshake_timeout = 30 * 1000

abbrev pub k_session_max_lifetime_ms : ℕ
k_session_max_lifetime_ms = 24 * 60 * 60 * 1000

-- The difference of two times in 64 bits: large where the second one is later.
abbrev pub elapsed : ℕ → ℕ → ℕ
elapsed now t = (now + (2 ^ 64 - t)) % 2 ^ 64

-- `destroy` of one session.
unfoldable pub destroy : Outside → ByteOrder → Server → Session → Server
destroy out o sv s =
    if s.is_tcp
    then put_session sv (record s { tcp_drop = true })
    else release_session out o sv s.peer_key

abbrev pub destroy_key : Outside → ByteOrder → Server → List ℕ → Server
destroy_key out o sv key = elim (find sv.sessions key) [ none ↦ sv | some s ↦ destroy out o sv s ]

-- One session at a beat.
unfoldable pub beat_one : Outside → ByteOrder → Chance → Server → Session → Server
unfolding destroy
beat_one out o ch sv s =
    if not s.authenticated
    then (if ltb k_handshake_timeout (elapsed ch.now_ms s.created_at_ms)
        then destroy out o sv s
        else sv)
    else if not (s.last_rx_ms == 0) && ltb k_heartbeat_timeout (elapsed ch.now_ms s.last_rx_ms)
    then destroy out o sv s
    else if ltb k_session_max_lifetime_ms (elapsed ch.now_ms s.created_at_ms)
    then destroy_key out o (send_packet out o sv s m_disconnect [] ch.net).0 s.peer_key
    else (send_packet out o sv s m_heart [] ch.net).0

-- The sessions of a list of keys, as far as they are still there.
unfoldable pub beat_all : Outside → ByteOrder → Chance → Server → List (List ℕ) → Server
unfolding beat_one
beat_all out o ch sv [] = sv
beat_all out o ch sv (k ∷ ks) = elim (find sv.sessions k) [
  | none ↦ beat_all out o ch sv ks
  | some s ↦ beat_all out o ch (beat_one out o ch sv s) ks
]

unfoldable pub keys : List Session → List (List ℕ)
keys [] = []
keys (s ∷ ss) = s.peer_key ∷ keys ss

-- The traffic of the managed clients goes to the database.
unfoldable pub flush_one : Session → Session
flush_one s = if s.svc_managed && ltb 0 s.svc_bytes then record s { svc_bytes = 0 } else s

unfoldable pub flush_all : List Session → List Session
unfolding flush_one
flush_all [] = []
flush_all (s ∷ ss) = flush_one s ∷ flush_all ss

unfoldable pub bills : List Session → List (List ℕ × ℕ)
bills [] = []
bills (s ∷ ss) =
    if s.svc_managed && ltb 0 s.svc_bytes then (s.client_id, s.svc_bytes) ∷ bills ss else bills ss

unfoldable pub blocked_keys : Service → List Session → List (List ℕ)
blocked_keys svc [] = []
blocked_keys svc (s ∷ ss) = elim s.client_id [
  | [] ↦ blocked_keys svc ss
  | c ∷ cs ↦
      if svc.machine_blocked (c ∷ cs) then s.peer_key ∷ blocked_keys svc ss else blocked_keys svc ss
]

unfoldable pub settle : Outside → ByteOrder → Server → Server
unfolding flush_all bills blocked_keys
settle out o sv = elim out.service [
  | none ↦ sv
  | some svc ↦
      let sv' = record sv {
        billed = bills sv.sessions ++ sv.billed;
        sessions = flush_all sv.sessions;
      } in
      release_all out o sv' (blocked_keys svc sv.sessions)
]

-- A beat that is due.
unfoldable pub heartbeat : Outside → ByteOrder → Chance → Server → Server
unfolding settle beat_all keys
heartbeat out o ch sv = let sv' = settle out o sv in beat_all out o ch sv' (keys sv'.sessions)

abbrev pub key_of : List (ℕ × List ℕ) → ℕ → Option (List ℕ)
key_of [] ip = none
key_of ((a, k) ∷ m) ip = if a == ip then some k else key_of m ip

-- The table of addresses is asked in network order.
unfoldable pub deliver : Server → Option (List ℕ) → List ℕ → Server × Bool
deliver sv none pkt = (sv, false)
deliver sv (some key) pkt = elim (find sv.sessions key) [
  | none ↦ (sv, false)
  | some s ↦
      let (q, ok) = push s.send_queue pkt in
      if s.authenticated then (put_session sv (record s { send_queue = q }), ok) else (sv, false)
]

unfoldable pub forward_tun_packet : ByteOrder → Server → List ℕ → Server × Bool
unfolding deliver
forward_tun_packet o sv pkt =
    let ihl = byte_at pkt 0 % 16 in
    if ltb (length pkt) 20
    then (sv, false)
    else if not (byte_at pkt 0 / 16 == 4)
    then (sv, false)
    else if ltb ihl 5 || ltb (length pkt) (ihl * 4)
    then (sv, false)
    else deliver sv (key_of sv.vips.vip_to_key (o.htonl (address_at pkt 16))) pkt

-- One packet out of the queue of a session that is in the table, behind the pop.
unfoldable pub send_one : Outside → ByteOrder → Chance → Server → Session → List ℕ → Server
send_one out o ch sv s pkt =
    let sv' = (send_packet out o (put_session sv s) s m_data pkt ch.net).0 in
    if (length pkt == 0) || ltb 1400 (length pkt)
    then put_session sv s
    else elim (find sv'.sessions s.peer_key) [
      | none ↦ sv'
      | some t ↦ (count_traffic out o sv' t (length pkt)).0
    ]

-- At most `n` packets of one session.
unfoldable pub drain_queue : Outside → ByteOrder → Chance → ℕ → Server → List ℕ → Server
unfolding send_one
drain_queue out o ch zero sv key = sv
drain_queue out o ch (suc n) sv key = elim (find sv.sessions key) [
  | none ↦ sv
  | some s ↦
      if s.handshaked && s.enc_ready
      then (elim (pop s.send_queue).1 [
        | none ↦ sv
        | some pkt ↦
            drain_queue out o ch n
              (send_one out o ch sv (record s { send_queue = (pop s.send_queue).0 }) pkt) key
      ])
      else sv
]

unfoldable pub drain_all : Outside → ByteOrder → Chance → Server → List (List ℕ) → Server
unfolding drain_queue
drain_all out o ch sv [] = sv
drain_all out o ch sv (k ∷ ks) = drain_all out o ch (drain_queue out o ch 256 sv k) ks

-- One round over the sessions.
unfoldable pub send_round : Outside → ByteOrder → Chance → Server → Server
unfolding drain_all keys
send_round out o ch sv = drain_all out o ch sv (keys sv.sessions)
