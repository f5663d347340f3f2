-- ===== src/Client/Tests.antt =====
-- A client that goes through its hand-shake.
use scholar_vpn.Prelude.{
  ◌⊎◌, ℕ, ◌+◌, ◌-◌, ◌*◌, ◌≡◌, refl, true, false, List, [], ◌∷◌, ◌++◌, none, some, zero, suc, ltb,
  length, arith,
}
use scholar_vpn.Replay.{fresh, too_old, accept}
use scholar_vpn.Queue.{create, push, pop_until}
use scholar_vpn.Server.{Header, Session, m_data, m_identity_ok, m_auth_server_hello}
use scholar_vpn.Server.Tests.{outside, big_endian, chance, server}
use scholar_vpn.Server.Table.{new_session}
use scholar_vpn.Client.{Client, Crypto, Turn, passed, hs_idle, cleared, init}
use scholar_vpn.Client.Work.{k_auth_timeout, Event, turn, frame, from_tun, flowing, start_work, run}
use scholar_vpn.Client.Send.{send_packet}
use scholar_vpn.Client.Receive.{handle_frame}
use scholar_vpn.Client.Message.{build_identity_message}
use scholar_vpn.Client.Sound.{IsSound}
use scholar_vpn.Client.Turns.{Came, run-IsSound}
use scholar_vpn.Client.Paced.{Ticking}
use scholar_vpn.Client.Wait.{is_waiting, started_at, run-ends, run-never_times_out}
use scholar_vpn.Server.Auth.{handle_auth_client_hello}
use scholar_vpn.Server.{hs_hello}
use scholar_vpn.Client.Work
use scholar_vpn.Client.Agreed.{Agreed, exchange-Agreed}
use scholar_vpn.Client.Forged.{refused, handle_frame-forged}
use scholar_vpn.Client.Accepted.{Accepted, build_identity_message-Accepted}

-- Bytes all alike.
abbrev bytes : ℕ → List ℕ
bytes zero = []
bytes (suc n) = 7 ∷ bytes n

abbrev crypto : Crypto
crypto = record {
  public_of = λ priv. some priv;
  sign = λ priv m. some (bytes 64);
  verify = λ key m sig. true;
  ecdh = λ a b. some a;
  derive = λ a b c. some (b, c);
  open_sealed = λ key hdr frame. frame;
}

abbrev idle_client : Client
idle_client = record {
  is_tcp = false;
  running = false;
  handshaked = false;
  need_reconnect = false;
  seq = 0;
  last_rx_ms = 0;
  heartbeat_timeout = 5000;
  hs_state = hs_idle;
  ed25519_priv = some (bytes 32);
  server_sig_pub = none;
  client_id = 1 ∷ 2 ∷ [];
  register_token = 3 ∷ [];
  nonce_c = [];
  nonce_s = [];
  dh_cli_pub = [];
  dh_srv_pub = [];
  dh_cli_priv = none;
  server_hello_ok = false;
  authenticated = false;
  auth_failed = false;
  auth_deny_reason = none;
  assigned_ip = 0;
  assigned_prefix = 0;
  key_c2s = [];
  key_s2c = [];
  enc_ready = false;
  replay = fresh;
  sendqueue = create 512;
  recvqueue = create 512;
  sent = [];
}

abbrev at_time : ℕ → Turn
at_time now = record {
  now_ms = now;
  sent_ms = now + 1;
  net = passed;
  net_next = passed;
  ephemeral = some (bytes 32, bytes 32);
  later = create 512;
  woke = false;
}

abbrev frame_of : ℕ → ℕ → Header
frame_of kind seq = record { version = 1; kind = kind; payload_len = 0; sequence = seq }

-- The greeting, the identity, and a packet in each direction.
abbrev events : List Event
events =
    turn (at_time 20)
    ∷ frame (at_time 30) (frame_of m_auth_server_hello 0) (bytes 112)
    ∷ turn (at_time 40)
    ∷ frame (at_time 50) (frame_of m_identity_ok 1) (m_identity_ok ∷ 10 ∷ 8 ∷ 0 ∷ 2 ∷ 24 ∷ [])
    ∷ turn (at_time 60)
    ∷ from_tun (1 ∷ 2 ∷ [])
    ∷ turn (at_time 80)
    ∷ frame (at_time 90) (frame_of m_data 2) (m_data ∷ 4 ∷ [])
    ∷ []

abbrev begun : Client
begun = (init idle_client true (bytes 16) 0 (some [])).0

-- The run comes to the tunnel, with a client that is let in.
goes_through : (run crypto (start_work begun (at_time 0)) events).1 ≡ flowing 60
unfolding init cleared start_work run send_packet handle_frame build_identity_message too_old fresh
    accept pop_until push create
goes_through = refl

run-IsSound_example :
    IsSound crypto
      (λ hdr payload. Came hdr payload events)
      (1 + 2 * length events)
      (run crypto (start_work begun (at_time 0)) events).0
unfolding init cleared
run-IsSound_example =
    run-IsSound crypto idle_client true (bytes 16) 0 (some []) (at_time 0) events refl refl
      (omega arith)

-- Rounds 20 ms apart.
abbrev rounds : ℕ → ℕ → List Event
rounds now zero = []
rounds now (suc n) = turn (at_time (now + 20)) ∷ rounds (now + 20) n

ticking : (now n : ℕ) → Ticking 40 now (rounds now n)
ticking now zero = tt
ticking now (suc n) = (omega arith, omega arith, omega arith, ticking (now + 20) n)

run-ends_example : is_waiting (run crypto (start_work begun (at_time 0)) (rounds 0 600)).1 ≡ false
run-ends_example =
    run-ends crypto begun (at_time 0) (rounds 0 600)
      (omega arith, omega arith, omega arith, ticking 0 600) (omega arith)

run-never_times_out_example :
    let s = (run crypto (start_work begun (at_time 0)) (rounds 0 200)).1 in
    ltb k_auth_timeout (4010 - started_at s 4010) ≡ false
run-never_times_out_example =
    run-never_times_out crypto begun (at_time 0) (rounds 0 200) 4010
      (omega arith, omega arith, omega arith, ticking 0 200) (omega arith)

-- Before the third stage.
abbrev met : Client
met = record idle_client {
  nonce_c = bytes 16;
  nonce_s = bytes 16;
  dh_cli_pub = bytes 32;
  dh_srv_pub = bytes 32;
}

abbrev session : Session
session = record (new_session [] [] false 0) {
  nonce_c = bytes 16;
  nonce_s = bytes 16;
  dh_cli_pub = bytes 32;
  dh_srv_pub = bytes 32;
}

abbrev msg : List ℕ
msg = 1 ∷ 1 ∷ 3 ∷ (bytes 128 ++ (2 ∷ 1 ∷ 2 ∷ bytes 64))

build_identity_message-Accepted_example :
    Accepted outside big_endian (chance 0) server session met msg
unfolding build_identity_message new_session
build_identity_message-Accepted_example =
    build_identity_message-Accepted outside big_endian (chance 0) server session crypto met
      (refl, refl, refl, refl) (λ priv pub_key payload sig e h. refl) refl msg refl

-- A crypto that takes nothing for authentic.
abbrev strict : Crypto
strict = record crypto { verify = λ key m sig. false; open_sealed = λ key hdr frame. [] }

handle_frame-forged_example :
    (handle_frame strict met (at_time 5) (frame_of m_auth_server_hello 0) (bytes 112) ≡ met)
    ⊎ ((m_auth_server_hello ≡ m_auth_server_hello)
        × (handle_frame strict met (at_time 5) (frame_of m_auth_server_hello 0) (bytes 112)
            ≡ refused met (bytes 112)))
handle_frame-forged_example =
    handle_frame-forged strict met (at_time 5) (frame_of m_auth_server_hello 0) (bytes 112) refl
      (λ key m. refl)

-- Both ends before the second stage.
abbrev greeted : Client
greeted = record met { dh_cli_pub = []; server_hello_ok = true }

abbrev waiting_session : Session
waiting_session = record session {
  dh_cli_pub = [];
  dh_srv_priv = some (bytes 32);
  hs_stage = hs_hello;
}

exchange-Agreed_example :
    Agreed server
      (handle_auth_client_hello outside server waiting_session (bytes 32))
      waiting_session
      (Work.exchange crypto greeted (at_time 40)).0
exchange-Agreed_example =
    exchange-Agreed crypto outside server waiting_session greeted (at_time 40) (bytes 32) (bytes 32)
      (bytes 32) (bytes 32) (bytes 16, bytes 16) refl refl refl refl refl refl refl refl refl refl
      refl refl refl
