-- ===== src/Tcp/Output.antt =====
-- `flush_conn_tx` of server/TCP/tcpserver.cpp. Behind the last result of a list the socket is full.
use scholar_vpn.Prelude.{
  ℕ, ◌+◌, Bool, true, false, not, ◌&&◌, List, [], ◌∷◌, ◌++◌, leb, ◌==◌, if◌then◌else◌, length, take,
  drop,
}
use scholar_vpn.Tcp.{SendResult, took, again, late, dead}

-- The bytes for a connection, of which a prefix is written, and whether epoll tells when the socket
-- takes more. `wire` logs the bytes that the socket took.
pub record Out : Type 0 where
  pub tx_buf : List ℕ
  pub tx_off : ℕ
  pub want_epollout : Bool
  pub wire : List ℕ

abbrev pub rest_of : Out → List ℕ
rest_of c = drop c.tx_off c.tx_buf

-- The frames of the session join the buffer.
unfoldable pub move_frames : Out → List (List ℕ) → Out
move_frames c [] = c
move_frames c (f ∷ fs) = move_frames (record c { tx_buf = c.tx_buf ++ f }) fs

pub data Stop : Type 0 where
  finished blocked failed : Stop

abbrev pub all_out : Out → Bool
all_out c = leb (length c.tx_buf) c.tx_off

abbrev pub takes : Out → ℕ → Out
takes c n = record c { tx_off = c.tx_off + n; wire = c.wire ++ take n (rest_of c) }

unfoldable pub send_out : Out → List SendResult → Out × Stop
send_out c [] = if all_out c then (c, finished) else (c, blocked)
send_out c (took n ∷ rs) =
    let next = send_out (takes c n) rs in
    if all_out c then (c, finished) else if n == 0 then (c, failed) else next
send_out c (again ∷ rs) = let next = send_out c rs in if all_out c then (c, finished) else next
send_out c (late ∷ rs) = if all_out c then (c, finished) else (c, blocked)
send_out c (dead ∷ rs) = if all_out c then (c, finished) else (c, failed)

unfoldable pub shrink : Out → Out
shrink c =
    if all_out c
    then record c { tx_buf = []; tx_off = 0 }
    else if leb 4096 c.tx_off
    then record c { tx_buf = rest_of c; tx_off = 0 }
    else c

abbrev pub same_bool : Bool → Bool → Bool
same_bool true b = b
same_bool false b = not b

-- `works` tells that epoll_ctl does.
unfoldable pub subscribe : Out → Bool → Bool → Out × Bool
subscribe c need_out works =
    if same_bool need_out c.want_epollout
    then (c, true)
    else if works
    then (record c { want_epollout = need_out }, true)
    else (c, false)

unfoldable pub flush_conn_tx : Out → List (List ℕ) → List SendResult → Bool → Out × Bool
unfolding move_frames send_out shrink subscribe
flush_conn_tx c frames rs works =
    let (c', stop) = send_out (move_frames c frames) rs in
    elim stop [
      | failed ↦ (c', false)
      | finished ↦ subscribe (shrink c') (not (all_out (shrink c')) && false) works
      | blocked ↦ subscribe (shrink c') (not (all_out (shrink c')) && true) works
    ]
