-- ===== src/Client/Work.antt =====
-- `send_work` of src/UDP.cpp as a machine: a turn is one round of the loop that it is in. With
-- `handle_frame`, whose thread takes turns with it, it makes the steps of the client.
use scholar_vpn.Prelude.{
  ℕ, ◌+◌, ◌-◌, Bool, true, not, ◌&&◌, ◌||◌, List, [], ◌∷◌, none, some, ltb, leb, ◌==◌,
  if◌then◌else◌, length,
}
use scholar_vpn.Queue.{push, got, timeout, shut_down, pop_until}
use scholar_vpn.Server.{
  Header, m_data, m_heart, m_disconnect, m_identity, m_auth_hello, m_auth_client_hello,
}
use scholar_vpn.Server.Auth.{is_empty}
use scholar_vpn.Client.{Client, Crypto, Turn, hs_idle, hs_send_fin, hs_success, stop}
use scholar_vpn.Client.Send.{sends}
use scholar_vpn.Client.Message.{build_identity_message}
use scholar_vpn.Client.Receive.{handle_frame}

abbrev pub k_auth_timeout : ℕ
k_auth_timeout = 8000

abbrev pub k_auth_retry_interval : ℕ
k_auth_retry_interval = 500

abbrev pub k_auth_max_retries : ℕ
k_auth_max_retries = 10

abbrev pub k_heartbeat_interval : ℕ
k_heartbeat_interval = 1000

-- A wait has the time it started, that of the last frame, and the number of retries.
pub data Stage : Type 0 where
  hello_wait : ℕ → ℕ → ℕ → Stage
  identity_wait : ℕ → ℕ → ℕ → List ℕ → Stage
  -- With the time of the last heartbeat.
  flowing : ℕ → Stage
  ended : Stage

pub data Verdict : Type 0 where
  give_up resend idle : Verdict

-- One round of a wait.
unfoldable pub wait_round : ℕ → ℕ → ℕ → ℕ → Verdict
wait_round start last retries now =
    if ltb k_auth_timeout (now - start)
    then give_up
    else if leb k_auth_retry_interval (now - last)
    then (if ltb k_auth_max_retries (retries + 1) then give_up else resend)
    else idle

abbrev pub reconnect : Client → Client × Stage
reconnect c = (record c { need_reconnect = true }, ended)

unfoldable pub start_work : Client → Turn → Client × Stage
start_work c t = (sends c m_auth_hello c.nonce_c t.net, hello_wait t.now_ms t.sent_ms 0)

-- With the keys: the identity goes out.
unfoldable pub begin_identity : Crypto → Client → Turn → Client × Stage
begin_identity k c t = elim (build_identity_message k c) [
  | none ↦ reconnect c
  | some msg ↦ (sends c m_identity msg t.net_next, identity_wait t.now_ms t.sent_ms 0 msg)
]

unfoldable pub derive_keys : Crypto → Client → Turn → List ℕ → Client × Stage
unfolding begin_identity
derive_keys k c t secret = elim (k.derive secret c.nonce_c c.nonce_s) [
  | none ↦ reconnect c
  | some p ↦ begin_identity k (record c { key_c2s = p.0; key_s2c = p.1; enc_ready = true }) t
]

unfoldable pub exchange : Crypto → Client → Turn → Client × Stage
unfolding derive_keys
exchange k c t = elim t.ephemeral [
  | none ↦ reconnect c
  | some e ↦
      let c' =
        sends (record c { dh_cli_priv = some e.0; dh_cli_pub = e.1 }) m_auth_client_hello e.1
          t.net in
      elim (k.ecdh e.0 c'.dh_srv_pub) [
        | none ↦ reconnect c'
        | some secret ↦ derive_keys k c' t secret
      ]
]

unfoldable pub after_hello : Crypto → Client → Turn → Client × Stage
unfolding exchange
after_hello k c t =
    if not c.server_hello_ok || (c.auth_failed || (c.need_reconnect || not c.running))
    then (record c { hs_state = hs_idle }, ended)
    else exchange k c t

unfoldable pub hello_turn : Crypto → Client → Turn → ℕ → ℕ → ℕ → Client × Stage
unfolding wait_round after_hello
hello_turn k c t start last retries =
    if c.running && (not c.server_hello_ok && (not c.auth_failed && not c.need_reconnect))
    then (elim (wait_round start last retries t.now_ms) [
      | give_up ↦ after_hello k (record c { need_reconnect = true }) t
      | resend ↦ (sends c m_auth_hello c.nonce_c t.net, hello_wait start t.now_ms (retries + 1))
      | idle ↦ (c, hello_wait start last retries)
    ])
    else after_hello k c t

unfoldable pub after_identity : Client → Turn → Client × Stage
after_identity c t =
    if not c.authenticated
    then reconnect c
    else (record c { handshaked = true; hs_state = hs_success }, flowing t.now_ms)

-- The key of the exchange goes out again too.
unfoldable pub send_identity : Client → Turn → List ℕ → Client
send_identity c t msg =
    let c' = sends c m_auth_client_hello c.dh_cli_pub t.net in
    sends (if is_empty c.dh_cli_pub then c else c') m_identity msg t.net_next

unfoldable pub identity_turn : Client → Turn → ℕ → ℕ → ℕ → List ℕ → Client × Stage
unfolding wait_round after_identity send_identity
identity_turn c t start last retries msg =
    if c.running && (not c.authenticated && (not c.auth_failed && not c.need_reconnect))
    then (elim (wait_round start last retries t.now_ms) [
      | give_up ↦ after_identity (record c { need_reconnect = true }) t
      | resend ↦ (send_identity c t msg, identity_wait start t.now_ms (retries + 1) msg)
      | idle ↦ (c, identity_wait start last retries msg)
    ])
    else after_identity c t

-- Behind the loop of the tunnel.
unfoldable pub finish : Client → Turn → Client × Stage
finish c t =
    if c.handshaked && not c.need_reconnect
    then (
      record (sends (record c { hs_state = hs_send_fin }) m_disconnect [] t.net_next) {
        hs_state = hs_idle;
      },
      ended,
    )
    else (c, ended)

-- A packet out of the queue.
unfoldable pub send_data : Client → Turn → List ℕ → Client
send_data c t pkt =
    if is_empty pkt then c else if ltb 1400 (length pkt) then c else sends c m_data pkt t.net_next

unfoldable pub take_packet : Client → Turn → ℕ → Client × Stage
unfolding finish send_data
take_packet c t heart =
    let (q, r) = pop_until c.sendqueue t.later t.woke in
    let c' = record c { sendqueue = q } in
    elim r [
      | shut_down ↦ finish c' t
      | timeout ↦ (c', flowing heart)
      | got pkt ↦ (send_data c' t pkt, flowing heart)
    ]

-- Nothing authentic came in for too long.
abbrev pub is_silent : Client → ℕ → Bool
is_silent c now = not (c.last_rx_ms == 0) && ltb c.heartbeat_timeout (now - c.last_rx_ms)

unfoldable pub watch : Client → Turn → ℕ → Client × Stage
unfolding take_packet
watch c t heart =
    if is_silent c t.now_ms
    then finish (record c { need_reconnect = true }) t
    else take_packet c t heart

unfoldable pub flow_turn : Client → Turn → ℕ → Client × Stage
unfolding watch
flow_turn c t heart =
    if not c.running || c.need_reconnect
    then finish c t
    else if leb k_heartbeat_interval (t.now_ms - heart)
    then watch (sends c m_heart [] t.net) t t.now_ms
    else watch c t heart

unfoldable pub work : Crypto → Client → Turn → Stage → Client × Stage
unfolding hello_turn identity_turn flow_turn
work k c t (hello_wait start last retries) = hello_turn k c t start last retries
work k c t (identity_wait start last retries msg) = identity_turn c t start last retries msg
work k c t (flowing heart) = flow_turn c t heart
work k c t ended = (c, ended)

unfoldable pub send_ip_packet : Client → List ℕ → Client
send_ip_packet c pkt = if c.running then record c { sendqueue = (push c.sendqueue pkt).0 } else c

pub data Event : Type 0 where
  turn : Turn → Event
  frame : Turn → Header → List ℕ → Event
  from_tun : List ℕ → Event
  stopped : Event

-- `stop` closes the socket first, so that nothing goes out from then on; the threads end in it.
unfoldable pub step : Crypto → Client × Stage → Event → Client × Stage
unfolding work send_ip_packet
step k (c, s) (turn t) = work k c t s
step k (c, s) (frame t hdr payload) = (if c.running then handle_frame k c t hdr payload else c, s)
step k (c, s) (from_tun pkt) = (send_ip_packet c pkt, s)
step k (c, s) stopped = (stop c, ended)

unfoldable pub run : Crypto → Client × Stage → List Event → Client × Stage
unfolding step
run k cs [] = cs
run k cs (e ∷ es) = run k (step k cs e) es
