-- ===== src/Client/Receive.antt =====
-- `handle_frame` of src/UDP.cpp: what a frame from the server does.
use scholar_vpn.Prelude.{
  ℕ, ◌+◌, ◌*◌, ◌^◌, true, not, List, [], ◌∷◌, ◌++◌, none, some, ◌==◌, if◌then◌else◌, length, take,
  drop,
}
use scholar_vpn.Replay.{accept, too_old}
use scholar_vpn.Queue.{push}
use scholar_vpn.Server.{
  Header, m_data, m_heart, m_heart_response, m_disconnect, m_identity_ok, m_identity_deny,
  m_auth_server_hello,
}
use scholar_vpn.Client.{Client, Crypto, Turn}
use scholar_vpn.Client.Send.{is_encrypted, sends}

-- The address and the prefix that the server gives, if the message is long enough.
unfoldable pub identity_ok : Client → List ℕ → Client
identity_ok c (a ∷ b ∷ d ∷ e ∷ p ∷ rest) = record c {
  authenticated = true;
  assigned_ip = a * 2 ^ 24 + b * 2 ^ 16 + d * 2 ^ 8 + e;
  assigned_prefix = p;
}
identity_ok c inner = record c { authenticated = true }

unfoldable pub identity_deny : Client → List ℕ → Client
identity_deny c [] = record c { auth_deny_reason = none; auth_failed = true }
identity_deny c (reason ∷ rest) = record c { auth_deny_reason = some reason; auth_failed = true }

abbrev pub deliver : Client → List ℕ → Client
deliver c [] = c
deliver c (b ∷ bs) = record c { recvqueue = (push c.recvqueue (b ∷ bs)).0 }

-- The type in front of the decrypted bytes decides.
unfoldable pub handle_inner : Client → Turn → List ℕ → Client
unfolding identity_ok identity_deny
handle_inner c t [] = c
handle_inner c t (kind ∷ inner) =
    if kind == m_data
    then deliver c inner
    else if kind == m_heart
    then sends c m_heart_response [] t.net
    else if kind == m_identity_ok
    then identity_ok c inner
    else if kind == m_identity_deny
    then identity_deny c inner
    else if kind == m_disconnect
    then record c { need_reconnect = true }
    else c

abbrev pub opened : Client → Turn → ℕ → List ℕ → Client
opened c t seq [] = c
opened c t seq (b ∷ bs) =
    let (w, passes) = accept c.replay seq in
    let c' = record c { replay = w } in
    if passes then handle_inner (record c' { last_rx_ms = t.now_ms }) t (b ∷ bs) else c'

unfoldable pub handle_sealed : Crypto → Client → Turn → Header → List ℕ → Client
unfolding handle_inner
handle_sealed k c t hdr payload =
    if not c.enc_ready
    then c
    else if too_old c.replay hdr.sequence
    then c
    else opened c t hdr.sequence (k.open_sealed c.key_s2c hdr payload)

-- The nonce and the key of the server are kept before its signature is looked at.
unfoldable pub server_hello : Crypto → Client → List ℕ → Client
server_hello k c payload =
    let c' = record c { nonce_s = take 16 payload; dh_srv_pub = take 32 (drop 16 payload) } in
    if not (length payload == 112) then c else elim c.server_sig_pub [
      | none ↦ record c' { auth_failed = true }
      | some key ↦
          if k.verify key (c.nonce_c ++ (c'.nonce_s ++ c'.dh_srv_pub)) (drop 48 payload)
          then record c' { server_hello_ok = true }
          else record c' { auth_failed = true }
    ]

unfoldable pub handle_frame : Crypto → Client → Turn → Header → List ℕ → Client
unfolding handle_sealed server_hello
handle_frame k c t hdr payload =
    if is_encrypted hdr.kind
    then handle_sealed k c t hdr payload
    else if hdr.kind == m_auth_server_hello
    then server_hello k c payload
    else c
