-- ===== src/Server.antt =====
-- The sessions of the server: `UDP` of server/UDP/UDP.cpp with `Session` of server/UDP/Session.h.
-- One call that runs under the locks is one step. OpenSSL, the clock, the random numbers and the
-- results of system calls are arguments (`Outside`, `Chance`). A session is `released` exactly when it
-- is out of the table.
pub mod Table
pub mod Send
pub mod Limiter
pub mod Auth
pub mod Identity
pub mod Receive
pub mod Beat
pub mod Steps
pub mod Held
pub mod Moves
pub mod Valid
pub mod Keeps
pub mod Rate
pub mod Quiet
pub mod Tun
pub mod Packets
pub mod Passes
pub mod Forged
pub mod Tokens
pub mod Seats
pub mod Tests
use scholar_vpn.Prelude.{ℕ, ◌*◌, ◌≤◌, Bool, true, false, List, [], ◌∷◌, Option, none, some, leb}
use scholar_vpn.Replay.{ReplayWindow}
use scholar_vpn.Vip.Lease.{Vips}
use scholar_vpn.Queue.Server.{QueueBuffer}

pub data HandshakeStage : Type 0 where
  hs_none hs_hello hs_keys hs_authed : HandshakeStage

-- `stage >= HS_STAGE_KEYS`
abbrev pub has_keys : HandshakeStage → Bool
has_keys hs_none = false
has_keys hs_hello = false
has_keys hs_keys = true
has_keys hs_authed = true

abbrev pub is_authed : HandshakeStage → Bool
is_authed hs_authed = true
is_authed s = false

abbrev pub is_hello : HandshakeStage → Bool
is_hello hs_hello = true
is_hello s = false

-- The private key of an exchange is there until the keys are derived. Times are in milliseconds.
pub record Session : Type 0 where
  pub peer_key : List ℕ
  pub peer_ip : List ℕ
  pub is_tcp : Bool
  pub tcp_drop : Bool
  pub client_id : List ℕ
  pub cli_pub_hex : List ℕ
  pub virtual_ip : ℕ
  pub ip_assigned : Bool
  pub hs_stage : HandshakeStage
  pub nonce_c : List ℕ
  pub nonce_s : List ℕ
  pub dh_cli_pub : List ℕ
  pub dh_srv_pub : List ℕ
  pub dh_srv_priv : Option (List ℕ)
  pub key_c2s : List ℕ
  pub key_s2c : List ℕ
  pub enc_ready : Bool
  pub authenticated : Bool
  pub handshaked : Bool
  pub server_hello_payload : List ℕ
  pub send_queue : QueueBuffer (List ℕ)
  pub tcp_tx_bytes : ℕ
  pub seq : ℕ
  pub replay : ReplayWindow
  pub last_rx_ms : ℕ
  pub created_at_ms : ℕ
  pub svc_managed : Bool
  pub svc_used_base : ℕ
  pub svc_quota : ℕ
  pub svc_bytes : ℕ
  pub svc_over : Bool

-- What goes into a frame: bytes as they are, or bytes behind their type sealed with a key.
pub data Body : Type 0 where
  plain : List ℕ → Body
  sealed : List ℕ → ℕ → List ℕ → Body

-- A frame given to the socket, or to the queue of a connection.
pub record Frame : Type 0 where
  pub to : List ℕ
  pub kind : ℕ
  pub sequence : ℕ
  pub body : Body

-- Tokens in fiftieths, so that 20 a second are one in a millisecond.
pub record Bucket : Type 0 where
  pub fiftieths : ℕ
  pub last_ms : ℕ

-- `clients` and `tokens` are the lines of registered_clients.txt and register_tokens.txt; `sent`, the
-- latest first, and `billed` log the frames and the calls of `add_used`.
pub record Server : Type 0 where
  pub sessions : List Session
  pub vips : Vips
  pub clients : List (List ℕ)
  pub tokens : List (List ℕ)
  pub max_clients : ℕ
  pub tun_prefix : ℕ
  pub has_sig_priv : Bool
  pub buckets : List (List ℕ × Bucket)
  pub queue_recv : QueueBuffer (List ℕ)
  pub sent : List Frame
  pub billed : List (List ℕ × ℕ)

pub record TrialInfo : Type 0 where
  pub status : List ℕ
  pub expire_at : ℕ
  pub quota_bytes : ℕ
  pub used_bytes : ℕ

-- The answers of the database of managed services.
pub record Service : Type 0 where
  pub ip_blocked : ℕ → Bool
  pub domain_blocked : List ℕ → Bool
  pub machine_blocked : List ℕ → Bool
  pub get_trial : List ℕ → Option TrialInfo

-- A header whose magic number is right.
pub record Header : Type 0 where
  pub version : ℕ
  pub kind : ℕ
  pub payload_len : ℕ
  pub sequence : ℕ

-- OpenSSL: `none` is an exception; `open` gives no bytes for a frame that is not authentic.
pub record Outside : Type 0 where
  pub sign : List ℕ → Option (List ℕ)
  pub verify : List ℕ → List ℕ → List ℕ → Bool
  pub ecdh : List ℕ → List ℕ → Option (List ℕ)
  pub derive : List ℕ → List ℕ → List ℕ → Option (List ℕ × List ℕ)
  pub open_sealed : List ℕ → Header → List ℕ → List ℕ
  pub service : Option Service

-- What one step meets: the clock, new secrets, the draws of an address, and what the system does.
pub record Chance : Type 0 where
  pub now_ms : ℕ
  pub now_s : ℕ
  pub nonce : List ℕ
  pub ephemeral : Option (List ℕ × List ℕ)
  -- The rounds of `uniform_int_distribution(first, last)`.
  pub draw : ℕ → ℕ → ℕ → ℕ
  pub draw-in : (lo hi i : ℕ) → lo ≤ hi → (lo ≤ draw lo hi i) × (draw lo hi i ≤ hi)
  pub net : Bool
  pub rewrites : Bool
  pub appends : Bool

-- Types of frames.
abbrev pub m_data : ℕ
m_data = 2

abbrev pub m_heart : ℕ
m_heart = 3

abbrev pub m_heart_response : ℕ
m_heart_response = 4

abbrev pub m_disconnect : ℕ
m_disconnect = 5

abbrev pub m_auth_hello : ℕ
m_auth_hello = 8

abbrev pub m_auth_server_hello : ℕ
m_auth_server_hello = 9

abbrev pub m_auth_client_hello : ℕ
m_auth_client_hello = 10

abbrev pub m_identity : ℕ
m_identity = 11

abbrev pub m_identity_ok : ℕ
m_identity_ok = 12

abbrev pub m_identity_deny : ℕ
m_identity_deny = 13
