-- ===== src/Server/Tests.antt =====
-- A server with the pool of 10.8.0.1/29 that holds one session.
use scholar_vpn.Prelude.{
  ℕ, ◌+◌, ◌-◌, ◌*◌, ◌≤◌, ◌≡◌, ◌⊎◌, inr, refl, true, false, List, [], ◌∷◌, none, some, contains,
  bytes_eq, arith,
}
use scholar_vpn.Vip.{ByteOrder, Pool}
use scholar_vpn.Replay.{fresh, too_old, accept}
use scholar_vpn.Queue.Server.{create, push}
use scholar_vpn.Server.{
  Session, Server, Header, Outside, Chance, hs_authed, plain, m_data, m_disconnect,
}
use scholar_vpn.Server.Table.{find, remove, release_session, per_ip, new_session}
use scholar_vpn.Server.Send.{send_packet}
use scholar_vpn.Server.Beat.{beat_one}
use scholar_vpn.Server.Steps.{Event, datagram, accepted, closed, beats, sends, run}
use scholar_vpn.Server.Held.{held}
use scholar_vpn.Server.Seats.{Unique}
use scholar_vpn.Server.Valid.{IsValid}
use scholar_vpn.Server.Keeps.Rounds.{run-IsValid}
use scholar_vpn.Server.Limiter.{
  drop_idle, put_bucket, prune, bucket_of, allow_handshake_recompute, k_burst, k_token,
}
use scholar_vpn.Server.Rate.{requests, requests-bound}
use scholar_vpn.Server.Quiet.{Quiet}
use scholar_vpn.Server.Receive.{handle_framed, tunnel_packet_source_ok}
use scholar_vpn.Server.Packets.{queue_after}
use scholar_vpn.Server.Passes.{framed-queue}
use scholar_vpn.Server.Forged.{framed-unchanged}
use scholar_vpn.Server.Tun.{Passed, framed-Passed}
use scholar_vpn.Server.Tokens.{times, registered, registered_once}

-- A big-endian machine.
abbrev pub big_endian : ByteOrder
big_endian = record {
  htonl = λ a. a;
  ntohl = λ a. a;
  ntohl-htonl = λ a h. refl;
  htonl_zero = λ a h e. e;
  htonl_of_zero = refl;
}

-- Seals and signatures that let everything pass.
abbrev pub outside : Outside
outside = record {
  sign = λ m. some [];
  verify = λ k m s. true;
  ecdh = λ a b. some a;
  derive = λ a b c. some (b, c);
  open_sealed = λ k hdr bytes. bytes;
  service = none;
}

abbrev pub chance : ℕ → Chance
chance now = record {
  now_ms = now;
  now_s = 1;
  nonce = 7 ∷ [];
  ephemeral = some (1 ∷ [], 2 ∷ []);
  draw = λ lo hi i. lo;
  draw-in = λ lo hi i h. (omega arith, h);
  net = true;
  rewrites = true;
  appends = true;
}

abbrev pool : Pool
pool = record { used = 0x0a080002 ∷ []; first = 0x0a080001; last = 0x0a080006; gw = 0x0a080001 }

abbrev pub client : Session
client = record (new_session (5 ∷ []) (6 ∷ []) false 1) {
  virtual_ip = 0x0a080002;
  ip_assigned = true;
  hs_stage = hs_authed;
  enc_ready = true;
  authenticated = true;
  handshaked = true;
}

abbrev pub server : Server
server = record {
  sessions = client ∷ [];
  vips = record { pool = some pool; last_vip = []; vip_to_key = (0x0a080002, 5 ∷ []) ∷ [] };
  clients = [];
  tokens = (1 ∷ []) ∷ (2 ∷ []) ∷ [];
  max_clients = 5;
  tun_prefix = 29;
  has_sig_priv = true;
  buckets = [];
  queue_recv = create 512;
  sent = [];
  billed = [];
}

server-IsValid : IsValid big_endian server
unfolding held Unique per_ip find new_session contains
server-IsValid = record {
  pool = pool;
  has_pool = refl;
  pool_ok = record { word = omega arith; hosts = omega arith; distinct = (refl, tt) };
  spans = omega arith;
  exact = λ a. refl;
  distinct = (refl, tt);
  good = ((inr (refl, refl, refl), refl, inr (λ e. omega (arith, e))), tt);
  seats = record { unique = (refl, tt); few = λ ip. ground arith; fits = omega arith };
}

abbrev data_header : Header
data_header = record { version = 1; kind = m_data; payload_len = 1; sequence = 3 }

-- Another source says hello, the client sends a frame, a connection comes and goes, and time passes.
abbrev events : List (Event × Chance)
events =
    (datagram (8 ∷ []) (9 ∷ []) (record data_header { kind = 8 }) (1 ∷ []), chance 5)
    ∷ (datagram (5 ∷ []) (6 ∷ []) data_header (m_data ∷ []), chance 6)
    ∷ (accepted (10 ∷ []) (9 ∷ []), chance 7)
    ∷ (closed (10 ∷ []), chance 8)
    ∷ (beats, chance 60000)
    ∷ (sends, chance 60001)
    ∷ []

run-IsValid_example : IsValid big_endian (run outside big_endian server events)
run-IsValid_example = run-IsValid big_endian outside events server server-IsValid

-- Three requests of one source and one of another.
abbrev asked : List (List ℕ × ℕ)
asked = (6 ∷ [], 10) ∷ (9 ∷ [], 10) ∷ (6 ∷ [], 20) ∷ (6 ∷ [], 30) ∷ []

requests-bound_example : k_token * (requests server (6 ∷ []) asked).1 ≤ k_burst + (30 - 10)
unfolding allow_handshake_recompute drop_idle put_bucket prune bucket_of bytes_eq
requests-bound_example =
    requests-bound server (6 ∷ []) 10 asked 30 (omega arith)
      (omega arith, (omega arith, (omega arith, (omega arith, omega arith))))
      (omega arith, (omega arith, (omega arith, (omega arith, tt))))

-- 20 bytes of a packet from 10.8.0.2.
abbrev packet : List ℕ
packet = 0x45 ∷ 0 ∷ 0 ∷ 20 ∷ 0 ∷ 0 ∷ 0 ∷ 0 ∷ 64 ∷ 17 ∷ 0 ∷ 0 ∷ 10 ∷ 8 ∷ 0 ∷ 2 ∷ 8 ∷ 8 ∷ 8 ∷ 8 ∷ []

framed-Passed_example :
    Quiet server
      (handle_framed outside big_endian (chance 9) server client data_header (m_data ∷ packet))
    ⊎ Passed big_endian outside client data_header
        (m_data ∷ packet)
        server.queue_recv
        (handle_framed outside big_endian
          (chance 9)
          server
          client
          data_header
          (m_data ∷ packet)).queue_recv
framed-Passed_example =
    framed-Passed big_endian outside (chance 9) server client data_header (m_data ∷ packet)

-- The packet gets through.
packet_passes :
    (handle_framed outside big_endian
      (chance 9)
      server
      client
      data_header
      (m_data ∷ packet)).queue_recv.queue
    ≡ packet ∷ []
unfolding new_session handle_framed fresh too_old accept tunnel_packet_source_ok push create
packet_passes = refl

registered_once_example :
    registered server (1 ∷ []) ((chance 1, 1 ∷ [], 3 ∷ []) ∷ (chance 2, 1 ∷ [], 4 ∷ []) ∷ [])
    ≤ times server.tokens (1 ∷ [])
registered_once_example =
    registered_once ((chance 1, 1 ∷ [], 3 ∷ []) ∷ (chance 2, 1 ∷ [], 4 ∷ []) ∷ []) server (1 ∷ [])

-- A beat whose clock was read a millisecond before the last frame came in drops the client.
early_beat_drops :
    (beat_one outside big_endian (chance 8) server (record client { last_rx_ms = 9 })).sessions ≡ []
unfolding new_session beat_one release_session find bytes_eq remove
early_beat_drops = refl

-- The frame that ends a session after a day goes out in plain.
plain_disconnect :
    (send_packet outside big_endian server client m_disconnect [] true).0.sent
    ≡ record { to = 5 ∷ []; kind = m_disconnect; sequence = 0; body = plain [] } ∷ []
unfolding new_session send_packet
plain_disconnect = refl

framed-queue_example :
    (handle_framed outside big_endian
      (chance 9)
      server
      client
      data_header
      (m_data ∷ packet)).queue_recv
    ≡ queue_after outside big_endian (chance 9) server client data_header (m_data ∷ packet)
framed-queue_example =
    framed-queue big_endian outside (chance 9) server client data_header (m_data ∷ packet)

framed-unchanged_example :
    handle_framed outside big_endian (chance 9) server client (record data_header { kind = 8 }) []
    ≡ server
unfolding new_session
framed-unchanged_example =
    framed-unchanged big_endian outside (chance 9) server client (record data_header { kind = 8 })
      [] refl refl refl
