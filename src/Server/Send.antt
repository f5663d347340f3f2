-- ===== src/Server/Send.antt =====
-- `UDP::send_packet` of server/UDP/UDP.cpp, and the answers made of it.
use scholar_vpn.Prelude.{
  ℕ, ◌+◌, ◌*◌, ◌%◌, ◌^◌, Bool, true, false, ◌||◌, List, [], ◌∷◌, Option, none, some, ltb, leb, ◌==◌,
  if◌then◌else◌, length,
}
use scholar_vpn.Vip.{ByteOrder}
use scholar_vpn.Server.{
  Session, Server, Body, plain, sealed, Frame, Outside, m_data, m_heart, m_heart_response,
  m_identity, m_identity_ok, m_identity_deny,
}
use scholar_vpn.Server.Table.{put_session, release_session}

abbrev pub k_seq_rekey_limit : ℕ
k_seq_rekey_limit = 2 ^ 31

abbrev pub k_max_tcp_tx_buf_bytes : ℕ
k_max_tcp_tx_buf_bytes = 2 * 1024 * 1024

-- The types that `send_packet` encrypts.
abbrev pub is_encrypted : ℕ → Bool
is_encrypted kind =
    (kind == m_data)
    || ((kind == m_heart)
        || ((kind == m_heart_response)
            || ((kind == m_identity) || ((kind == m_identity_ok) || (kind == m_identity_deny)))))

-- The body of a frame and its size with the header; `none` if it cannot be sealed.
unfoldable pub body_of : Session → ℕ → List ℕ → Option (Body × ℕ)
body_of s kind bytes =
    if is_encrypted kind
    then (if s.enc_ready
        then (if ltb 1441 (12 + (length bytes + 29))
            then none
            else some (sealed s.key_s2c kind bytes, 12 + (length bytes + 29)))
        else none)
    else some (plain bytes, 12 + length bytes)

-- The bytes into the queue of the connection, or to the socket; `net` is the success of `sendto`.
unfoldable pub transmit : Server → Session → Frame → ℕ → Bool → Server × Bool
transmit sv s f total net =
    if s.is_tcp
    then (if ltb k_max_tcp_tx_buf_bytes (s.tcp_tx_bytes + total)
        then (put_session sv (record s { tcp_drop = true }), false)
        else (
          record (put_session sv (record s { tcp_tx_bytes = s.tcp_tx_bytes + total })) {
            sent = f ∷ sv.sent;
          },
          true,
        ))
    else if net
    then (record (put_session sv s) { sent = f ∷ sv.sent }, true)
    else (put_session sv s, false)

-- The limit of the sequence numbers: a new session with new keys is wanted.
unfoldable pub retire : Outside → ByteOrder → Server → Session → Server
retire out o sv s =
    if s.is_tcp
    then put_session sv (record s { tcp_drop = true })
    else release_session out o (put_session sv s) s.peer_key

-- `s` is the session in the table; its counter is raised first.
unfoldable pub send_packet :
    Outside → ByteOrder → Server → Session → ℕ → List ℕ → Bool → Server × Bool
unfolding body_of transmit retire
send_packet out o sv s kind bytes net =
    let s' = record s { seq = (s.seq + 1) % 2 ^ 32 } in
    if ltb 1400 (length bytes)
    then (sv, false)
    else if leb k_seq_rekey_limit s.seq
    then (retire out o sv s', false)
    else elim (body_of s kind bytes) [
      | none ↦ (put_session sv s', false)
      | some b ↦
          transmit sv s' (record { to = s.peer_key; kind = kind; sequence = s.seq; body = b.0 }) b.1
            net
    ]

abbrev pub reply_heartbeat : Outside → ByteOrder → Server → Session → Bool → Server
reply_heartbeat out o sv s net = (send_packet out o sv s m_heart_response [] net).0
