-- ===== src/Server/Auth.antt =====
-- The first two stages of the hand-shake in server/UDP/UDP.cpp: `handle_auth_hello` and
-- `handle_auth_client_hello`.
use scholar_vpn.Prelude.{
  ℕ, Bool, true, false, not, ◌&&◌, ◌||◌, List, [], ◌∷◌, ◌++◌, Option, none, some, ◌==◌,
  if◌then◌else◌, length, bytes_eq,
}
use scholar_vpn.Vip.{ByteOrder}
use scholar_vpn.Server.{
  Session, Server, Outside, Chance, hs_hello, hs_keys, has_keys, is_authed, is_hello,
  m_auth_server_hello,
}
use scholar_vpn.Server.Table.{put_session}
use scholar_vpn.Server.Send.{send_packet}
use scholar_vpn.Server.Limiter.{allow_handshake_recompute}

abbrev pub is_some {ℓ} : {A : Type ℓ} → Option A → Bool
is_some none = false
is_some (some a) = true

abbrev pub is_empty : List ℕ → Bool
is_empty [] = true
is_empty (x ∷ xs) = false

-- The signed answer, from the cache where there is one.
unfoldable pub server_hello : Outside → Session → Option (List ℕ)
server_hello out s =
    if length s.server_hello_payload == 112
    then some s.server_hello_payload
    else elim (out.sign (s.nonce_c ++ (s.nonce_s ++ s.dh_srv_pub))) [
      | none ↦ none
      | some sig ↦ if length sig == 64 then some (s.nonce_s ++ (s.dh_srv_pub ++ sig)) else none
    ]

unfoldable pub send_server_hello : Outside → ByteOrder → Server → Session → Bool → Server
unfolding server_hello
send_server_hello out o sv s net = elim (server_hello out s) [
  | none ↦ put_session sv s
  | some p ↦
      let s' = record s { server_hello_payload = p } in
      (send_packet out o (put_session sv s') s' m_auth_server_hello p net).0
]

-- The same `auth_hello` again, with its exchange still open.
abbrev pub is_repeat : Session → List ℕ → Bool
is_repeat s payload =
    bytes_eq s.nonce_c payload
    && (is_some s.dh_srv_priv && (not (is_empty s.nonce_s) && not (is_empty s.dh_srv_pub)))

-- Another nonce for a session that has its keys.
abbrev pub is_foreign : Session → List ℕ → Bool
is_foreign s payload =
    (has_keys s.hs_stage || (s.authenticated || (s.enc_ready || s.handshaked)))
    && ((length s.nonce_c == 16) && not (bytes_eq s.nonce_c payload))

-- The session back at the first stage with the nonces.
unfoldable pub restart : Session → List ℕ → List ℕ → Session
restart s nonce_c nonce_s = record s {
  dh_srv_priv = none;
  key_c2s = [];
  key_s2c = [];
  server_hello_payload = [];
  enc_ready = false;
  authenticated = false;
  handshaked = false;
  hs_stage = hs_hello;
  nonce_c = nonce_c;
  nonce_s = nonce_s;
}

unfoldable pub begin_exchange : Outside → ByteOrder → Chance → Server → Session → Server
begin_exchange out o ch sv s = elim ch.ephemeral [
  | none ↦ put_session sv s
  | some e ↦
      send_server_hello out o sv (record s { dh_srv_priv = some e.0; dh_srv_pub = e.1 }) ch.net
]

unfoldable pub handle_auth_hello : Outside → ByteOrder → Chance → Server → Session → List ℕ → Server
unfolding restart begin_exchange
handle_auth_hello out o ch sv s payload =
    if not (length payload == 16)
    then sv
    else if not sv.has_sig_priv
    then sv
    else if is_authed s.hs_stage || s.authenticated
    then sv
    else if is_repeat s payload
    then send_server_hello out o sv s ch.net
    else if is_foreign s payload
    then sv
    else let (sv', allowed) = allow_handshake_recompute sv s.peer_ip ch.now_ms in
      if allowed then begin_exchange out o ch sv' (restart s payload ch.nonce) else sv'

-- The keys out of the shared secret, and the end of the private key.
unfoldable pub derive_keys : Outside → Server → Session → List ℕ → Server
derive_keys out sv s secret = elim (out.derive secret s.nonce_c s.nonce_s) [
  | none ↦ put_session sv s
  | some k ↦ put_session sv (record s {
    key_c2s = k.0;
    key_s2c = k.1;
    dh_srv_priv = none;
    hs_stage = hs_keys;
    enc_ready = true;
  })
]

unfoldable pub exchange : Outside → Server → Session → List ℕ → Server
unfolding derive_keys
exchange out sv s priv = elim (out.ecdh priv s.dh_cli_pub) [
  | none ↦ put_session sv s
  | some secret ↦ derive_keys out sv s secret
]

unfoldable pub handle_auth_client_hello : Outside → Server → Session → List ℕ → Server
unfolding exchange
handle_auth_client_hello out sv s payload =
    if not (length payload == 32)
    then sv
    else if not (is_hello s.hs_stage)
    then sv
    else if is_empty s.nonce_c || is_empty s.nonce_s
    then sv
    else elim s.dh_srv_priv [
      | none ↦ sv
      | some priv ↦ exchange out sv (record s { dh_cli_pub = payload }) priv
    ]
