-- ===== src/Server/Table.antt =====
-- The table of sessions of server/UDP/UDP.cpp: `get_or_create_session` and `release_session`. The
-- table is a list; a walk over it goes in the order of the list.
use scholar_vpn.Prelude.{
  ℕ, suc, ◌^◌, ◌-◌, Bool, false, not, ◌&&◌, List, [], ◌∷◌, Option, none, some, ltb, leb, ◌==◌,
  if◌then◌else◌, bytes_eq, length,
}
use scholar_vpn.Replay.{fresh}
use scholar_vpn.Vip.{ByteOrder}
use scholar_vpn.Vip.Lease.{release_virtual_ip}
use scholar_vpn.Queue.Server.{create}
use scholar_vpn.Server.{Session, Server, hs_none, Outside}

unfoldable pub find : List Session → List ℕ → Option Session
find [] key = none
find (s ∷ ss) key = if bytes_eq s.peer_key key then some s else find ss key

-- The table with a session in place of the one with its key.
unfoldable pub store : List Session → Session → List Session
store [] s = []
store (t ∷ ss) s = if bytes_eq t.peer_key s.peer_key then s ∷ ss else t ∷ store ss s

-- The table without the session of a key.
unfoldable pub remove : List Session → List ℕ → List Session
remove [] key = []
remove (s ∷ ss) key = if bytes_eq s.peer_key key then ss else s ∷ remove ss key

abbrev pub put_session : Server → Session → Server
put_session sv s = record sv { sessions = store sv.sessions s }

abbrev pub k_max_pending_sessions : ℕ
k_max_pending_sessions = 32

abbrev pub k_max_sessions_per_ip : ℕ
k_max_sessions_per_ip = 8

-- `Session(addr, tcp)` at a time.
unfoldable pub new_session : List ℕ → List ℕ → Bool → ℕ → Session
new_session key ip tcp now = record {
  peer_key = key;
  peer_ip = ip;
  is_tcp = tcp;
  tcp_drop = false;
  client_id = [];
  cli_pub_hex = [];
  virtual_ip = 0;
  ip_assigned = false;
  hs_stage = hs_none;
  nonce_c = [];
  nonce_s = [];
  dh_cli_pub = [];
  dh_srv_pub = [];
  dh_srv_priv = none;
  key_c2s = [];
  key_s2c = [];
  enc_ready = false;
  authenticated = false;
  handshaked = false;
  server_hello_payload = [];
  send_queue = create 512;
  tcp_tx_bytes = 0;
  seq = 0;
  replay = fresh;
  last_rx_ms = now;
  created_at_ms = now;
  svc_managed = false;
  svc_used_base = 0;
  svc_quota = 0;
  svc_bytes = 0;
  svc_over = false;
}

-- The sessions that did not finish their hand-shake.
unfoldable pub pending : List Session → ℕ
pending [] = 0
pending (s ∷ ss) = if s.handshaked then pending ss else suc (pending ss)

unfoldable pub per_ip : List Session → List ℕ → ℕ
per_ip [] ip = 0
per_ip (s ∷ ss) ip = if bytes_eq s.peer_ip ip then suc (per_ip ss ip) else per_ip ss ip

-- The unfinished session of a source that was created first, the first one among equals; `least` is
-- the bound so far and `best` the session.
unfoldable pub oldest_pending : List Session → List ℕ → ℕ → Option Session → Option Session
oldest_pending [] ip least best = best
oldest_pending (s ∷ ss) ip least best =
    let newer = oldest_pending ss ip s.created_at_ms (some s) in
    let kept = oldest_pending ss ip least best in
    if bytes_eq s.peer_ip ip && (not s.handshaked && ltb s.created_at_ms least) then newer else kept

-- `if (ip_assigned && virtual_ip != 0) release_virtual_ip(virtual_ip);`
unfoldable pub free_address : ByteOrder → Server → Session → Server
free_address o sv s =
    if s.ip_assigned && not (s.virtual_ip == 0)
    then record sv { vips = release_virtual_ip o sv.vips s.virtual_ip }
    else sv

-- A session pushed out of the table. The flag `tcp_drop` has no use for the model behind that.
unfoldable pub evict : ByteOrder → Server → Session → Server
unfolding free_address
evict o sv s = free_address o (record sv { sessions = remove sv.sessions s.peer_key }) s

unfoldable pub bill_rest : Outside → Server → Session → Server
bill_rest out sv s = elim out.service [
  | none ↦ sv
  | some svc ↦
      if s.svc_managed && ltb 0 s.svc_bytes
      then record sv { billed = (s.client_id, s.svc_bytes) ∷ sv.billed }
      else sv
]

unfoldable pub release_session : Outside → ByteOrder → Server → List ℕ → Server
unfolding free_address bill_rest
release_session out o sv key = elim (find sv.sessions key) [
  | none ↦ sv
  | some s ↦ free_address o (bill_rest out (record sv { sessions = remove sv.sessions key }) s) s
]

unfoldable pub release_all : Outside → ByteOrder → Server → List (List ℕ) → Server
release_all out o sv [] = sv
release_all out o sv (k ∷ ks) = release_all out o (release_session out o sv k) ks

-- `m_sessions[oldestPendingKey]`
unfoldable pub evict_key : ByteOrder → Server → List ℕ → Server
unfolding evict
evict_key o sv key = elim (find sv.sessions key) [ none ↦ sv | some s ↦ evict o sv s ]

-- Room for one more session of the source; `none` if there is none.
unfoldable pub make_room : ByteOrder → Server → List ℕ → Option Server
unfolding evict_key
make_room o sv ip =
    if leb k_max_pending_sessions (pending sv.sessions)
    then none
    else if leb k_max_sessions_per_ip (per_ip sv.sessions ip)
    then (elim (oldest_pending sv.sessions ip (2 ^ 64 - 1) none) [
      | none ↦ none
      | some s ↦ some (evict_key o sv s.peer_key)
    ])
    else some sv

-- The table keeps the change where the session is refused at the last test.
unfoldable pub add_session : Server → Session → Server × Option Session
add_session sv s =
    if leb sv.max_clients (length sv.sessions)
    then (sv, none)
    else (record sv { sessions = s ∷ sv.sessions }, some s)

unfoldable pub get_or_create_session :
    ByteOrder → Server → List ℕ → List ℕ → Bool → ℕ → Server × Option Session
unfolding make_room add_session
get_or_create_session o sv key ip tcp now = elim (find sv.sessions key) [
  | some s ↦ (sv, some s)
  | none ↦ elim (make_room o sv ip) [
    | none ↦ (sv, none)
    | some sv' ↦ add_session sv' (new_session key ip tcp now)
  ]
]
