-- ===== src/Client/Send.antt =====
-- `send_packet` and the UDP `raw_send` of src/UDP.cpp.
use scholar_vpn.Prelude.{
  ℕ, ◌+◌, ◌%◌, ◌^◌, Bool, true, false, ◌&&◌, ◌||◌, List, ◌∷◌, ltb, leb, ◌==◌, if◌then◌else◌, length,
}
use scholar_vpn.Server.{
  plain, sealed, m_data, m_heart, m_heart_response, m_disconnect, m_identity, m_identity_ok,
  m_identity_deny,
}
use scholar_vpn.Client.{Client, Outgoing, Net, passed, failed, reset}

-- The types that go out sealed.
abbrev pub is_encrypted : ℕ → Bool
is_encrypted kind =
    (kind == m_data)
    || ((kind == m_heart)
        || ((kind == m_heart_response)
            || ((kind == m_identity)
                || ((kind == m_identity_ok)
                    || ((kind == m_identity_deny) || (kind == m_disconnect))))))

-- A datagram; a reset tells that the tunnel must be set up again.
unfoldable pub raw_send : Client → Outgoing → Net → Client × Bool
raw_send c f passed = (record c { sent = f ∷ c.sent }, true)
raw_send c f failed = (c, false)
raw_send c f reset = (record c { need_reconnect = true }, false)

-- A body that is sealed carries its type and 28 bytes more.
unfoldable pub send_body : Client → ℕ → ℕ → List ℕ → Net → Client × Bool
unfolding raw_send
send_body c seq kind bytes net =
    if c.enc_ready && is_encrypted kind
    then (if ltb 1429 (length bytes + 1 + 28)
        then (c, false)
        else raw_send c (record { kind = kind; sequence = seq; body = sealed c.key_c2s kind bytes })
            net)
    else raw_send c (record { kind = kind; sequence = seq; body = plain bytes }) net

unfoldable pub send_packet : Client → ℕ → List ℕ → Net → Client × Bool
unfolding send_body
send_packet c kind bytes net =
    let c' = record c { seq = (c.seq + 1) % 2 ^ 32 } in
    if ltb 1400 (length bytes)
    then (c, false)
    else if leb (2 ^ 31) c.seq
    then (record c' { need_reconnect = true }, false)
    else send_body c' c.seq kind bytes net

abbrev pub sends : Client → ℕ → List ℕ → Net → Client
sends c kind bytes net = (send_packet c kind bytes net).0
