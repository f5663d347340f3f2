-- ===== src/Tcp/Recv.antt =====
-- `recv_frame`, `take_frame` and `compact_rx` of src/tcp.cpp, and the loop `recv_work` of src/UDP.cpp
-- around them. The machine is little-endian, which the magic number alone shows.
use scholar_vpn.Prelude.{
  ℕ, zero, suc, ◌+◌, ◌*◌, ◌^◌, Bool, true, false, not, ◌||◌, List, [], ◌∷◌, ◌++◌, Option, none,
  some, ltb, leb, ◌==◌, if◌then◌else◌, length, take, drop,
}
use scholar_vpn.Server.{Header}

abbrev pub k_tunnel_header : ℕ
k_tunnel_header = 12

abbrev pub max_payload_len : ℕ
max_payload_len = 1429

abbrev pub k_magic : ℕ
k_magic = 0x4D56504E

abbrev pub v_tcp : ℕ
v_tcp = 2

-- The buffer, of which a prefix is read, and the size of the frame that was handed out last.
pub record Rx : Type 0 where
  pub rx_buf : List ℕ
  pub rx_off : ℕ
  pub consumed : ℕ
  pub need_reconnect : Bool

-- What a wait for the socket brings: a timeout, bytes, an error or the end, or the end on this side.
pub data RecvResult : Type 0 where
  timed_out : RecvResult
  received : List ℕ → RecvResult
  gone closed : RecvResult

unfoldable pub compact_rx : Rx → Rx
compact_rx r =
    if r.rx_off == 0
    then r
    else if leb (length r.rx_buf) r.rx_off
    then record r { rx_buf = []; rx_off = 0 }
    else if leb (64 * 1024) r.rx_off
    then record r { rx_buf = drop r.rx_off r.rx_buf; rx_off = 0 }
    else r

-- The unread bytes.
abbrev pub unread : Rx → List ℕ
unread r = drop r.rx_off r.rx_buf

abbrev pub byte_of : List ℕ → ℕ → ℕ
byte_of b i = elim (drop i b) [ [] ↦ 0 | x ∷ xs ↦ x ]

abbrev pub magic_of : List ℕ → ℕ
magic_of b = byte_of b 0 + byte_of b 1 * 2 ^ 8 + byte_of b 2 * 2 ^ 16 + byte_of b 3 * 2 ^ 24

abbrev pub header_of : List ℕ → Header
header_of b = record {
  version = byte_of b 4;
  kind = byte_of b 5;
  payload_len = byte_of b 6 * 2 ^ 8 + byte_of b 7;
  sequence = byte_of b 8 * 2 ^ 24 + byte_of b 9 * 2 ^ 16 + byte_of b 10 * 2 ^ 8 + byte_of b 11;
}

pub data Taken : Type 0 where
  whole : Header → List ℕ → Taken
  short invalid : Taken

-- The frame in front of the unread bytes.
unfoldable pub take_bytes : List ℕ → Taken
take_bytes b =
    let n = (header_of b).payload_len in
    if ltb (length b) k_tunnel_header
    then short
    else if not (magic_of b == k_magic) || not ((header_of b).version == v_tcp)
    then invalid
    else if ltb max_payload_len n
    then invalid
    else if ltb (length b) (k_tunnel_header + n)
    then short
    else whole (header_of b) (take n (drop k_tunnel_header b))

unfoldable pub take_frame : Rx → Rx × Taken
unfolding take_bytes
take_frame r = elim (take_bytes (unread r)) [
  | whole h p ↦ (record r { consumed = k_tunnel_header + h.payload_len }, whole h p)
  | short ↦ (r, short)
  | invalid ↦ (r, invalid)
]

-- The frame that was handed out last is passed over.
unfoldable pub advance : Rx → Rx
unfolding compact_rx
advance r =
    if ltb 0 r.consumed
    then compact_rx (record r { rx_off = r.rx_off + r.consumed; consumed = 0 })
    else r

-- A call of `recv_frame`: whether the connection lives, and what it hands out.
pub record Call : Type 0 where
  pub rx : Rx
  pub lives : Bool
  pub got : Option (Header × List ℕ)

abbrev pub dies : Rx → Call
dies r = record { rx = record r { need_reconnect = true }; lives = false; got = none }

unfoldable pub settled : Rx × Taken → Call
settled (r, whole h p) = record { rx = r; lives = true; got = some (h, p) }
settled (r, short) = record { rx = r; lives = true; got = none }
settled (r, invalid) = dies r

-- The buffer alone was not enough.
unfoldable pub from_socket : Rx → RecvResult → Call
unfolding settled take_frame
from_socket r timed_out = record { rx = r; lives = true; got = none }
from_socket r (received bytes) = settled (take_frame (record r { rx_buf = r.rx_buf ++ bytes }))
from_socket r gone = dies r
from_socket r closed = record { rx = r; lives = false; got = none }

-- The frames that are handed out, before those of the calls that follow.
abbrev pub goes_on : Call → List (Header × List ℕ) × Rx → List (Header × List ℕ) × Rx
goes_on c rest = elim c.lives [
  | false ↦ ([], c.rx)
  | true ↦ elim c.got [ none ↦ rest | some f ↦ (f ∷ rest.0, rest.1) ]
]

-- What a call makes of the buffer, and what `next`, the calls that follow, makes of the rest.
unfoldable pub dispatch :
    (Rx → List RecvResult → List (Header × List ℕ) × Rx)
    → Rx × Taken
    → List RecvResult
    → List (Header × List ℕ) × Rx
unfolding settled from_socket
dispatch next (r, whole h p) rs = goes_on (settled (r, whole h p)) (next r rs)
dispatch next (r, invalid) rs = goes_on (settled (r, invalid)) ([], r)
dispatch next (r, short) [] = ([], r)
dispatch next (r, short) (x ∷ xs) = let c = from_socket r x in goes_on c (next c.rx xs)

-- The loop of `recv_work`: the frames that it hands out, for so many calls of `recv_frame` at most.
-- Those that find a frame in the buffer do not look at the socket.
unfoldable pub recv_work : ℕ → Rx → List RecvResult → List (Header × List ℕ) × Rx
unfolding advance take_frame dispatch
recv_work zero r rs = ([], r)
recv_work (suc fuel) r rs = dispatch (recv_work fuel) (take_frame (advance r)) rs
