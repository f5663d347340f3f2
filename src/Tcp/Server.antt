-- ===== src/Tcp/Server.antt =====
-- `read_conn` and `flush_conn_tx` of server/TCP/tcpserver.cpp. `handle` is `handle_framed` on the state
-- of the server, and tells whether the session asks for the end of the connection.
use scholar_vpn.Prelude.{
  ℕ, zero, suc, ◌+◌, ◌*◌, Bool, not, List, [], ◌∷◌, ◌++◌, ltb, ◌==◌, if◌then◌else◌, length, take,
  drop,
}
use scholar_vpn.Server.{Header}
use scholar_vpn.Tcp.Recv.{
  k_tunnel_header, max_payload_len, k_magic, magic_of, header_of, Taken, whole, short, invalid,
  RecvResult, timed_out, received, gone, closed,
}

abbrev pub k_max_rx_buf_bytes : ℕ
k_max_rx_buf_bytes = 512 * 1024

abbrev pub k_read_frames_budget : ℕ
k_read_frames_budget = 64

-- The version is left to `handle_framed`.
unfoldable pub take_head : List ℕ → Taken
take_head b =
    let n = (header_of b).payload_len in
    if ltb (length b) k_tunnel_header
    then short
    else if not (magic_of b == k_magic)
    then invalid
    else if ltb max_payload_len n
    then invalid
    else if ltb (length b) (k_tunnel_header + n)
    then short
    else whole (header_of b) (take n (drop k_tunnel_header b))

-- How a loop ends: for more bytes, at the end of the budget, or with the connection.
pub data Ending : Type 0 where
  starved spent broken : Ending

-- The state of the server, the buffer, the budget that is left, and the ending.
pub record Served (S : Type 0) : Type 0 where
  pub state : S
  pub rx_buf : List ℕ
  pub budget : ℕ
  pub ending : Ending

module _ {S : Type 0} (handle : S → Header → List ℕ → S × Bool) where
  -- What is done with the front of the buffer, where `next` serves the rest with the budget `b`.
  unfoldable pub serve_taken : (S → List ℕ → Served S) → ℕ → S → List ℕ → Taken → Served S
  serve_taken next b s buf short = record {
    state = s;
    rx_buf = buf;
    budget = suc b;
    ending = starved;
  }
  serve_taken next b s buf invalid = record {
    state = s;
    rx_buf = buf;
    budget = suc b;
    ending = broken;
  }
  serve_taken next b s buf (whole h p) =
      let (s', drops) = handle s h p in
      let buf' = drop (k_tunnel_header + h.payload_len) buf in
      if drops
      then record { state = s'; rx_buf = buf'; budget = b; ending = broken }
      else next s' buf'

  -- The frames of the buffer, each with one of the budget.
  unfoldable pub split_frames : ℕ → S → List ℕ → Served S
  unfolding take_head serve_taken
  split_frames zero s buf = record { state = s; rx_buf = buf; budget = 0; ending = spent }
  split_frames (suc b) s buf = serve_taken (split_frames b) b s buf (take_head buf)

  -- The results of `recv` that are left when a call ends wait for the next one.
  unfoldable pub read_conn : ℕ → S → List ℕ → List RecvResult → Served S × List RecvResult
  unfolding split_frames
  read_conn b s buf [] = (record { state = s; rx_buf = buf; budget = b; ending = starved }, [])
  read_conn b s buf (timed_out ∷ rs) =
      (record { state = s; rx_buf = buf; budget = b; ending = starved }, rs)
  read_conn b s buf (received bytes ∷ rs) =
      let r = split_frames b s (buf ++ bytes) in
      let rest = read_conn r.budget r.state r.rx_buf rs in
      if ltb k_max_rx_buf_bytes (length buf + length bytes)
      then (record { state = s; rx_buf = buf; budget = b; ending = broken }, rs)
      else elim r.ending [ starved ↦ rest | spent ↦ (r, rs) | broken ↦ (r, rs) ]
  read_conn b s buf (gone ∷ rs) =
      (record { state = s; rx_buf = buf; budget = b; ending = broken }, rs)
  read_conn b s buf (closed ∷ rs) =
      (record { state = s; rx_buf = buf; budget = b; ending = broken }, rs)
