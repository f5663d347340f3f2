-- ===== src/Tcp/Send.antt =====
-- `raw_send` and `flush_tx_pending` of src/tcp.cpp. Behind the last result of a list the socket takes
-- no byte until the deadline.
use scholar_vpn.Prelude.{
  ℕ, ◌+◌, ◌*◌, Bool, true, false, List, [], ◌∷◌, ◌++◌, ltb, ◌==◌, if◌then◌else◌, length, take, drop,
}
use scholar_vpn.Tcp.{Tx, SendResult, took, again, late, dead}

abbrev pub k_max_tx_pending : ℕ
k_max_tx_pending = 4 * 1024 * 1024

abbrev pub fails : Tx → Tx × Bool
fails t = (record t { need_reconnect = true }, false)

-- The bytes that wait.
abbrev pub waiting : Tx → List ℕ
waiting t = drop t.tx_pending_off t.tx_pending

abbrev pub is_done : Tx → Bool
is_done t = if ltb t.tx_pending_off (length t.tx_pending) then false else true

abbrev pub emptied : Tx → Tx × Bool
emptied t = (record t { tx_pending = []; tx_pending_off = 0 }, true)

abbrev pub wrote : Tx → ℕ → Tx
wrote t n = record t { tx_pending_off = t.tx_pending_off + n; wire = t.wire ++ take n (waiting t) }

unfoldable pub flush_tx_pending : Tx → List SendResult → Tx × Bool
flush_tx_pending t [] = if is_done t then emptied t else (t, true)
flush_tx_pending t (took n ∷ rs) =
    let rest = flush_tx_pending (wrote t n) rs in
    if is_done t then emptied t else if n == 0 then fails t else rest
flush_tx_pending t (again ∷ rs) =
    let rest = flush_tx_pending t rs in if is_done t then emptied t else rest
flush_tx_pending t (late ∷ rs) = if is_done t then emptied t else (t, true)
flush_tx_pending t (dead ∷ rs) = if is_done t then emptied t else fails t

-- What is not written joins the backlog.
abbrev pub put_off : Tx → List ℕ → Tx × Bool
put_off t bytes = (record t { tx_pending = bytes; tx_pending_off = 0 }, true)

-- The loop without a backlog, on the bytes that are left.
unfoldable pub write : Tx → List ℕ → List SendResult → Tx × Bool
write t [] rs = (t, true)
write t (b ∷ bs) [] = put_off t (b ∷ bs)
write t (b ∷ bs) (took n ∷ rs) =
    let rest = write (record t { wire = t.wire ++ take n (b ∷ bs) }) (drop n (b ∷ bs)) rs in
    if n == 0 then fails t else rest
write t (b ∷ bs) (again ∷ rs) = write t (b ∷ bs) rs
write t (b ∷ bs) (late ∷ rs) = put_off t (b ∷ bs)
write t (b ∷ bs) (dead ∷ rs) = fails t

unfoldable pub raw_send : Tx → List ℕ → List SendResult → Tx × Bool
unfolding flush_tx_pending write
raw_send t bytes rs =
    if ltb t.tx_pending_off (length t.tx_pending)
    then (if ltb k_max_tx_pending (length t.tx_pending + length bytes)
        then fails t
        else flush_tx_pending (record t { tx_pending = waiting t ++ bytes; tx_pending_off = 0 }) rs)
    else write t bytes rs

-- Calls with their frames, one after the other.
unfoldable pub send_frames : Tx → List (List ℕ × List SendResult) → Tx
unfolding raw_send
send_frames t [] = t
send_frames t ((bytes, rs) ∷ calls) = send_frames (raw_send t bytes rs).0 calls
