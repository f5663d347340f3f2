-- ===== src/Server/Receive.antt =====
-- `recv_work` and `handle_framed` of server/UDP/UDP.cpp: what a frame does to its session, and which
-- packets reach the TUN device. A decrypted packet is a list of bytes.
use scholar_vpn.Prelude.{
  ℕ, ◌+◌, ◌*◌, ◌/◌, ◌%◌, ◌^◌, Bool, true, false, not, ◌&&◌, ◌||◌, List, [], ◌∷◌, none, some, ltb,
  leb, ◌==◌, if◌then◌else◌, length, take,
}
use scholar_vpn.Vip.{ByteOrder}
use scholar_vpn.Replay.{accept, too_old}
use scholar_vpn.Queue.Server.{push}
use scholar_vpn.Service.Extract.{Scan, fault, reject, ok, extract_domain}
use scholar_vpn.Server.{
  Session, Server, Header, Outside, Service, Chance, m_data, m_heart, m_heart_response,
  m_disconnect, m_identity, m_identity_ok, m_identity_deny, m_auth_hello, m_auth_client_hello,
}
use scholar_vpn.Server.Table.{find, put_session, release_session, get_or_create_session}
use scholar_vpn.Server.Send.{reply_heartbeat}
use scholar_vpn.Server.Auth.{handle_auth_hello, handle_auth_client_hello}
use scholar_vpn.Server.Identity.{byte_at, handle_identity}

-- Four bytes as a number, the high one first.
abbrev pub address_at : List ℕ → ℕ → ℕ
address_at p i =
    byte_at p i * 2 ^ 24
    + byte_at p (i + 1) * 2 ^ 16
    + byte_at p (i + 2) * 2 ^ 8
    + byte_at p (i + 3)

-- The address of the session is compared in host order.
unfoldable pub tunnel_packet_source_ok : ByteOrder → Session → List ℕ → Bool
tunnel_packet_source_ok o s pkt =
    let ihl = byte_at pkt 0 % 16 in
    let total = byte_at pkt 2 * 256 + byte_at pkt 3 in
    if ltb (length pkt) 20 || not (byte_at pkt 0 / 16 == 4)
    then false
    else if ltb ihl 5 || ltb (length pkt) (ihl * 4)
    then false
    else if ltb total (ihl * 4) || ltb (length pkt) total
    then false
    else s.ip_assigned && (address_at pkt 12 == o.ntohl s.virtual_ip)

-- The traffic of a managed client is counted; `false` where the session is cut for it.
unfoldable pub count_traffic : Outside → ByteOrder → Server → Session → ℕ → Server × Bool
count_traffic out o sv s n = elim out.service [
  | none ↦ (sv, true)
  | some svc ↦
      let s' = record s { svc_bytes = s.svc_bytes + n } in
      if not s.svc_managed
      then (sv, true)
      else if not s.svc_over
          && (ltb 0 s.svc_quota && leb s.svc_quota (s.svc_used_base + s'.svc_bytes))
      then (
        release_session out o (put_session sv (record s' { svc_over = true })) s.peer_key,
        false,
      )
      else (put_session sv s', true)
]

abbrev pub names_blocked : Service → Scan (List ℕ) → Bool
names_blocked svc fault = false
names_blocked svc reject = false
names_blocked svc (ok d) = svc.domain_blocked d

-- The destination or the domain of the packet is on the black list.
unfoldable pub is_blocked : Outside → List ℕ → Bool
is_blocked out pkt = elim out.service [
  | none ↦ false
  | some svc ↦ svc.ip_blocked (address_at pkt 16) || names_blocked svc (extract_domain pkt)
]

abbrev pub to_tun : Server → List ℕ → Server
to_tun sv pkt = record sv { queue_recv = (push sv.queue_recv pkt).0 }

unfoldable pub handle_data : Outside → ByteOrder → Server → Session → List ℕ → Server
unfolding count_traffic is_blocked
handle_data out o sv s pkt =
    let (sv', going) = count_traffic out o sv s (length pkt) in
    if length pkt == 0
    then sv
    else if not s.authenticated
    then sv
    else if not (tunnel_packet_source_ok o s pkt)
    then sv
    else if not going
    then sv'
    else if is_blocked out pkt
    then sv'
    else to_tun sv' pkt

unfoldable pub handle_disconnect : Outside → ByteOrder → Server → Session → Server
handle_disconnect out o sv s =
    if s.is_tcp
    then put_session sv (record s { tcp_drop = true })
    else release_session out o sv s.peer_key

-- An authentic frame by its inner type; `s` is in the table.
unfoldable pub handle_inner : Outside → ByteOrder → Chance → Server → Session → List ℕ → Server
unfolding handle_data handle_disconnect
handle_inner out o ch sv s [] = sv
handle_inner out o ch sv s (kind ∷ inner) =
    if kind == m_data
    then handle_data out o sv s inner
    else if kind == m_heart
    then reply_heartbeat out o sv s ch.net
    else if kind == m_identity
    then handle_identity out o ch sv s inner
    else if kind == m_disconnect
    then handle_disconnect out o sv s
    else sv

-- The types that come sealed.
abbrev pub is_sealed : ℕ → Bool
is_sealed kind =
    (kind == m_data)
    || ((kind == m_heart)
        || ((kind == m_heart_response)
            || ((kind == m_identity)
                || ((kind == m_identity_ok)
                    || ((kind == m_identity_deny) || (kind == m_disconnect))))))

abbrev pub opened : Outside → ByteOrder → Chance → Server → Session → ℕ → List ℕ → Server
opened out o ch sv s seq [] = sv
opened out o ch sv s seq (c ∷ cs) =
    let (w, passes) = accept s.replay seq in
    let s' = record s { replay = w; last_rx_ms = ch.now_ms } in
    if passes then handle_inner out o ch (put_session sv s') s' (c ∷ cs) else sv

unfoldable pub handle_sealed :
    Outside → ByteOrder → Chance → Server → Session → Header → List ℕ → Server
unfolding handle_inner
handle_sealed out o ch sv s hdr payload =
    if not s.enc_ready
    then sv
    else if too_old s.replay hdr.sequence
    then sv
    else opened out o ch sv s hdr.sequence (out.open_sealed s.key_c2s hdr payload)

unfoldable pub handle_plain :
    Outside → ByteOrder → Chance → Server → Session → Header → List ℕ → Server
handle_plain out o ch sv s hdr payload =
    if hdr.kind == m_auth_hello
    then handle_auth_hello out o ch sv s payload
    else if hdr.kind == m_auth_client_hello
    then handle_auth_client_hello out sv s payload
    else sv

-- `s` is in the table.
unfoldable pub handle_framed :
    Outside → ByteOrder → Chance → Server → Session → Header → List ℕ → Server
unfolding handle_sealed handle_plain
handle_framed out o ch sv s hdr payload =
    if not (hdr.version == (if s.is_tcp then 2 else 1))
    then sv
    else if is_sealed hdr.kind
    then handle_sealed out o ch sv s hdr payload
    else handle_plain out o ch sv s hdr payload

-- One datagram with the right magic number: the key and the address of its source, the header, and
-- the bytes behind it.
unfoldable pub recv_datagram :
    Outside → ByteOrder → Chance → Server → List ℕ → List ℕ → Header → List ℕ → Server
unfolding handle_framed
recv_datagram out o ch sv key ip hdr bytes =
    if ltb 1429 hdr.payload_len || ltb (length bytes) hdr.payload_len
    then sv
    else let (sv', found) = get_or_create_session o sv key ip false ch.now_ms in
      elim found [
        | none ↦ sv'
        | some s ↦ handle_framed out o ch sv' s hdr (take hdr.payload_len bytes)
      ]

-- A frame of a connection; its session may be gone from the table.
unfoldable pub recv_frame :
    Outside → ByteOrder → Chance → Server → List ℕ → Header → List ℕ → Server
unfolding handle_framed
recv_frame out o ch sv key hdr payload = elim (find sv.sessions key) [
  | none ↦ sv
  | some s ↦ handle_framed out o ch sv s hdr payload
]
