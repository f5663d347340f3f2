-- ===== src/Server/Identity.antt =====
-- The third stage of the hand-shake in server/UDP/UDP.cpp: `handle_identity`, with the files of
-- tokens and clients as lists of lines.
use scholar_vpn.Prelude.{
  ℕ, ◌+◌, ◌-◌, ◌/◌, ◌%◌, ◌^◌, Bool, true, false, not, ◌&&◌, ◌||◌, List, [], ◌∷◌, ◌++◌, Option, none,
  some, ltb, leb, ◌==◌, if◌then◌else◌, length, take, drop, bytes_eq,
}
use scholar_vpn.Vip.{ByteOrder}
use scholar_vpn.Vip.Lease.{Vips, allocate_virtual_ip, erase_key}
use scholar_vpn.Server.{
  Session, Server, Outside, TrialInfo, Chance, hs_authed, m_identity_ok, m_identity_deny,
}
use scholar_vpn.Server.Table.{find, store, put_session, release_all}
use scholar_vpn.Server.Send.{send_packet}
use scholar_vpn.Server.Auth.{is_empty}

-- The fields of an identity message.
pub record Identity : Type 0 where
  pub flags : ℕ
  pub token : List ℕ
  pub payload : List ℕ
  pub sig : List ℕ
  pub nonce_c : List ℕ
  pub nonce_s : List ℕ
  pub dh_cli_pub : List ℕ
  pub dh_srv_pub : List ℕ
  pub cli_pub : List ℕ
  pub client_id : List ℕ

abbrev pub byte_at : List ℕ → ℕ → ℕ
byte_at s i = elim (drop i s) [ [] ↦ 0 | c ∷ r ↦ c ]

-- `n` bytes from `i` on.
abbrev pub slice : List ℕ → ℕ → ℕ → List ℕ
slice s i n = take n (drop i s)

-- The fields by their places.
unfoldable pub fields_of : List ℕ → List ℕ → Identity
fields_of inner payload = record {
  flags = byte_at inner 0;
  token = slice inner 2 (byte_at inner 1);
  payload = payload;
  sig = drop (length inner - 64) inner;
  nonce_c = slice payload 0 16;
  nonce_s = slice payload 16 16;
  dh_cli_pub = slice payload 32 32;
  dh_srv_pub = slice payload 64 32;
  cli_pub = slice payload 96 32;
  client_id = drop 129 payload;
}

unfoldable pub parse_identity : List ℕ → Option Identity
unfolding fields_of
parse_identity inner =
    let payload = slice inner (2 + byte_at inner 1) (length inner - 64 - (2 + byte_at inner 1)) in
    if ltb (length inner) (2 + 129 + 64)
    then none
    else if ltb (length inner) (2 + byte_at inner 1 + 129 + 64)
    then none
    else if not (length payload == 129 + byte_at payload 128)
    then none
    else some (fields_of inner payload)

abbrev pub hex_digit : ℕ → ℕ
hex_digit d = if ltb d 10 then b'0' + d else b'a' + (d - 10)

unfoldable pub to_hex : List ℕ → List ℕ
to_hex [] = []
to_hex (b ∷ bs) = hex_digit (b / 16) ∷ hex_digit (b % 16) ∷ to_hex bs

unfoldable pub file_contains_line : List (List ℕ) → List ℕ → Bool
file_contains_line [] line = false
file_contains_line (l ∷ ls) line = if bytes_eq l line then true else file_contains_line ls line

-- The lines that are kept, where the first one that equals the line is found.
unfoldable pub without_line : List (List ℕ) → List ℕ → Option (List (List ℕ))
without_line [] line = none
without_line (l ∷ ls) line =
    if bytes_eq l line
    then some ls
    else elim (without_line ls line) [ none ↦ none | some kept ↦ some (l ∷ kept) ]

-- `rewrites` tells that the new file could be written and renamed.
unfoldable pub file_remove_line : List (List ℕ) → List ℕ → Bool → List (List ℕ) × Bool
unfolding without_line
file_remove_line ls line rewrites = elim (without_line ls line) [
  | none ↦ (ls, false)
  | some kept ↦ if rewrites then (kept, true) else (ls, false)
]

unfoldable pub file_append_line : List (List ℕ) → List ℕ → Bool → List (List ℕ) × Bool
file_append_line ls line appends = if appends then (ls ++ (line ∷ []), true) else (ls, false)

-- `clear` takes the flags of the session back, if it is still there.
abbrev pub clear : Server → List ℕ → Server
clear sv key = elim (find sv.sessions key) [
  | none ↦ sv
  | some s ↦ put_session sv (record s { authenticated = false; handshaked = false })
]

unfoldable pub deny : Outside → ByteOrder → Chance → Server → Session → ℕ → Server
deny out o ch sv s reason =
    clear (send_packet out o sv s m_identity_deny (reason ∷ []) ch.net).0 s.peer_key

-- The token is used up, and the client is written down.
unfoldable pub consume : Chance → Server → List ℕ → List ℕ → Server × Option ℕ
consume ch sv token hex =
    let (tokens, found) = file_remove_line sv.tokens token ch.rewrites in
    let (clients, added) = file_append_line sv.clients hex ch.appends in
    if not found
    then (sv, some 1)
    else if not added
    then (record sv { tokens = tokens }, some 1)
    else (record sv { tokens = tokens; clients = clients }, none)

unfoldable pub register : Chance → Server → List ℕ → List ℕ → Server × Option ℕ
unfolding consume
register ch sv token hex = if is_empty token then (sv, some 1) else consume ch sv token hex

-- The files after the message, and the reason of a refusal.
unfoldable pub check_keys : Chance → Server → Identity → List ℕ → Server × Option ℕ
unfolding register
check_keys ch sv m hex =
    if m.flags == 1
    then register ch sv m.token hex
    else if file_contains_line sv.clients hex
    then (sv, none)
    else (sv, some 0)

-- "rejected", "trial" and "approved"
abbrev pub rejected : List ℕ
rejected = b'r' ∷ b'e' ∷ b'j' ∷ b'e' ∷ b'c' ∷ b't' ∷ b'e' ∷ b'd' ∷ []

abbrev pub trial : List ℕ
trial = b't' ∷ b'r' ∷ b'i' ∷ b'a' ∷ b'l' ∷ []

abbrev pub approved : List ℕ
approved = b'a' ∷ b'p' ∷ b'p' ∷ b'r' ∷ b'o' ∷ b'v' ∷ b'e' ∷ b'd' ∷ []

-- The trial keeps the client out.
unfoldable pub is_refused : TrialInfo → ℕ → Bool
is_refused t now =
    bytes_eq t.status rejected
    || ((not (t.expire_at == 0) && leb t.expire_at now)
        || ((not (t.quota_bytes == 0) && leb t.quota_bytes t.used_bytes)
            || (not (bytes_eq t.status trial) && not (bytes_eq t.status approved))))

-- The session with the account of its client; `none` is the refusal for reason 2.
unfoldable pub admit : Outside → Chance → Session → List ℕ → Option Session
unfolding is_refused
admit out ch s id = elim out.service [
  | none ↦ some s
  | some svc ↦ if svc.machine_blocked id then none else elim (svc.get_trial id) [
    | none ↦ some s
    | some t ↦
        if is_refused t ch.now_s
        then none
        else some (record s {
          svc_managed = true;
          svc_used_base = t.used_bytes;
          svc_quota = t.quota_bytes;
        })
  ]
]

-- The keys of the other sessions of the same client key.
unfoldable pub others : List Session → Session → List (List ℕ)
others [] s = []
others (t ∷ ts) s =
    if not (bytes_eq t.peer_key s.peer_key) && bytes_eq t.cli_pub_hex s.cli_pub_hex
    then t.peer_key ∷ others ts s
    else others ts s

-- The four bytes of an address in network order, and the prefix.
abbrev pub ok_payload : ByteOrder → Server → ℕ → List ℕ
ok_payload o sv ip =
    (o.ntohl ip / 2 ^ 24 % 256)
    ∷ (o.ntohl ip / 2 ^ 16 % 256)
    ∷ (o.ntohl ip / 2 ^ 8 % 256)
    ∷ (o.ntohl ip % 256)
    ∷ sv.tun_prefix
    ∷ []

unfoldable pub grant : Outside → ByteOrder → Chance → Server → Session → Server
grant out o ch sv s =
    let s' = record s {
      authenticated = true;
      handshaked = true;
      hs_stage = hs_authed;
      last_rx_ms = ch.now_ms;
    } in
    (send_packet out o (put_session sv s') s' m_identity_ok (ok_payload o sv s.virtual_ip) ch.net).0

-- The draws in the range of the pool.
abbrev pub draws : Chance → Vips → ℕ → ℕ
draws ch v i = elim v.pool [ none ↦ 0 | some p ↦ ch.draw p.first p.last i ]

-- The session with an address, and the table of addresses.
unfoldable pub with_address : Server → Vips → Session → ℕ → Server
with_address sv v s ip = record sv {
  sessions = store sv.sessions (record s { virtual_ip = ip; ip_assigned = true });
  vips = record v { vip_to_key = (ip, s.peer_key) ∷ erase_key ip v.vip_to_key };
}

-- The result of an allocation; 0 is a full pool.
unfoldable pub take_address : Outside → ByteOrder → Chance → Server → Session → Vips × ℕ → Server
unfolding grant with_address
take_address out o ch sv s (v, ip) =
    if ip == 0
    then deny out o ch (record sv { vips = v }) s 0
    else grant out o ch (with_address sv v s ip) (record s { virtual_ip = ip; ip_assigned = true })

unfoldable pub assign_address : Outside → ByteOrder → Chance → Server → Session → Server
unfolding take_address
assign_address out o ch sv s =
    if s.ip_assigned
    then grant out o ch sv s
    else take_address out o ch sv s (allocate_virtual_ip o (draws ch sv.vips) sv.vips s.client_id)

-- Behind the checks: `s` carries the name and the key of its client.
unfoldable pub enter : Outside → ByteOrder → Chance → Server → Session → Server
unfolding assign_address
enter out o ch sv s =
    assign_address out o ch (release_all out o (put_session sv s) (others sv.sessions s)) s

unfoldable pub check_service :
    Outside → ByteOrder → Chance → Server → Session → Identity → List ℕ → Server
unfolding enter
check_service out o ch sv s m hex = elim (admit out ch s m.client_id) [
  | none ↦ deny out o ch sv s 2
  | some s' ↦ enter out o ch sv (record s' { client_id = m.client_id; cli_pub_hex = hex })
]

unfoldable pub check_client : Outside → ByteOrder → Chance → Server → Session → Identity → Server
unfolding check_service check_keys
check_client out o ch sv s m =
    let (sv', refusal) = check_keys ch sv m (to_hex m.cli_pub) in
    elim refusal [
      | some reason ↦ deny out o ch sv' s reason
      | none ↦ check_service out o ch sv' s m (to_hex m.cli_pub)
    ]

-- The message belongs to this session and is signed by the key in it.
abbrev pub is_bound : Outside → Session → Identity → Bool
is_bound out s m =
    bytes_eq m.nonce_c s.nonce_c
    && (bytes_eq m.nonce_s s.nonce_s
        && (bytes_eq m.dh_cli_pub s.dh_cli_pub
            && (bytes_eq m.dh_srv_pub s.dh_srv_pub && out.verify m.cli_pub m.payload m.sig)))

unfoldable pub handle_identity : Outside → ByteOrder → Chance → Server → Session → List ℕ → Server
unfolding check_client parse_identity
handle_identity out o ch sv s inner =
    if s.authenticated
    then (send_packet out o sv s m_identity_ok (ok_payload o sv s.virtual_ip) ch.net).0
    else elim (parse_identity inner) [
      | none ↦ deny out o ch sv s 0
      | some m ↦ if is_bound out s m then check_client out o ch sv s m else deny out o ch sv s 0
    ]
