-- ===== src/Client.antt =====
-- The client's end of the tunnel: `UDP` of src/UDP.cpp, which the TCP tunnel shares. The two threads
-- send_work and recv_work take turns, one step after the other. OpenSSL, the clock and the socket are
-- arguments (`Crypto`, `Turn`).
pub mod Send
pub mod Message
pub mod Receive
pub mod Work
pub mod Sound
pub mod Keeps
pub mod Opening
pub mod Closing
pub mod Turns
pub mod Paced
pub mod Wait
pub mod Identity
pub mod Accepted
pub mod Datagram
pub mod Forged
pub mod Agreed
mod Tests
use scholar_vpn.Prelude.{
  ℕ, ◌+◌, ◌*◌, Bool, true, false, not, List, [], if◌then◌else◌, Option, none, some,
}
use scholar_vpn.Replay.{ReplayWindow, fresh}
use scholar_vpn.Queue.{PacketQueue, shutdown}
use scholar_vpn.Server.{Header, Body}

pub data HandshakeState : Type 0 where
  hs_idle hs_send_req hs_wait_ack hs_send_fin hs_success : HandshakeState

-- A frame that was given to the socket.
pub record Outgoing : Type 0 where
  pub kind : ℕ
  pub sequence : ℕ
  pub body : Body

-- The reason of a refusal is there once one came in. Times are in milliseconds; `sent`, the latest
-- first, logs the frames.
pub record Client : Type 0 where
  pub is_tcp : Bool
  pub running : Bool
  pub handshaked : Bool
  pub need_reconnect : Bool
  pub seq : ℕ
  pub last_rx_ms : ℕ
  pub heartbeat_timeout : ℕ
  pub hs_state : HandshakeState
  pub ed25519_priv : Option (List ℕ)
  pub server_sig_pub : Option (List ℕ)
  pub client_id : List ℕ
  pub register_token : List ℕ
  pub nonce_c : List ℕ
  pub nonce_s : List ℕ
  pub dh_cli_pub : List ℕ
  pub dh_srv_pub : List ℕ
  pub dh_cli_priv : Option (List ℕ)
  pub server_hello_ok : Bool
  pub authenticated : Bool
  pub auth_failed : Bool
  pub auth_deny_reason : Option ℕ
  pub assigned_ip : ℕ
  pub assigned_prefix : ℕ
  pub key_c2s : List ℕ
  pub key_s2c : List ℕ
  pub enc_ready : Bool
  pub replay : ReplayWindow
  pub sendqueue : PacketQueue (List ℕ)
  pub recvqueue : PacketQueue (List ℕ)
  pub sent : List Outgoing

-- OpenSSL: `none` is an exception; `open_sealed` gives no bytes for a frame that is not authentic.
pub record Crypto : Type 0 where
  pub public_of : List ℕ → Option (List ℕ)
  pub sign : List ℕ → List ℕ → Option (List ℕ)
  pub verify : List ℕ → List ℕ → List ℕ → Bool
  pub ecdh : List ℕ → List ℕ → Option (List ℕ)
  pub derive : List ℕ → List ℕ → List ℕ → Option (List ℕ × List ℕ)
  pub open_sealed : List ℕ → Header → List ℕ → List ℕ

-- What the socket does with a frame: `reset` tells that the peer is gone.
pub data Net : Type 0 where
  passed failed reset : Net

-- What one turn of a thread meets: the clock where it begins and behind the frame that opens a wait,
-- what becomes of the frames that it sends, a new key, and the queue where a wait for it ends, before
-- the deadline or not.
pub record Turn : Type 0 where
  pub now_ms : ℕ
  pub sent_ms : ℕ
  pub net : Net
  pub net_next : Net
  pub ephemeral : Option (List ℕ × List ℕ)
  pub later : PacketQueue (List ℕ)
  pub woke : Bool

-- What a connection starts and ends with.
unfoldable pub cleared : Client → Client
cleared c = record c {
  handshaked = false;
  authenticated = false;
  auth_failed = false;
  auth_deny_reason = none;
  server_hello_ok = false;
  enc_ready = false;
  need_reconnect = false;
  replay = fresh;
  nonce_s = [];
  dh_cli_pub = [];
  dh_srv_pub = [];
  dh_cli_priv = none;
  key_c2s = [];
  key_s2c = [];
}

-- `opens` tells that the socket is there; then come the new nonce, the time, and the server's key, if
-- it can be read.
unfoldable pub init : Client → Bool → List ℕ → ℕ → Option (List ℕ) → Client × Bool
unfolding cleared
init c opens nonce now key =
    if c.running
    then (c, false)
    else if not opens
    then (c, false)
    else let c' = record (cleared c) { seq = 0; last_rx_ms = now; server_sig_pub = key } in
      elim key [
        | none ↦ (c', false)
        | some k ↦ (record c' { nonce_c = nonce; running = true }, true)
      ]

unfoldable pub stop : Client → Client
unfolding cleared
stop c = record (cleared c) {
  running = false;
  sendqueue = shutdown c.sendqueue;
  recvqueue = shutdown c.recvqueue;
  nonce_c = [];
  last_rx_ms = 0;
  hs_state = hs_idle;
}
