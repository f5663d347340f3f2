-- ===== src/Tcp/Pair.antt =====
-- Two ends of a connection of src/tcp.cpp.
use scholar_vpn.Prelude.{
  ℕ, ◌+◌, ◌<◌, ◌≡◌, refl, sym, ap, ◌∙◌, false, List, [], ◌∷◌, ◌++◌, append-nil, length, All, arith,
}
use scholar_vpn.Server.{Header}
use scholar_vpn.Tcp.{Tx, SendResult}
use scholar_vpn.Tcp.Send.{waiting, send_frames}
use scholar_vpn.Tcp.Stream.{frames_of, send_frames-stream}
use scholar_vpn.Tcp.Recv.{Rx, RecvResult, recv_work}
use scholar_vpn.Tcp.Frames.{encode, IsFrame}
use scholar_vpn.Tcp.Loop.{stream, incoming, IsOpen, recv_work-stream}

abbrev pub fresh_tx : Tx
fresh_tx = record { tx_pending = []; tx_pending_off = 0; need_reconnect = false; wire = [] }

abbrev pub fresh_rx : Rx
fresh_rx = record { rx_buf = []; rx_off = 0; consumed = 0; need_reconnect = false }

-- The frames of some calls.
abbrev pub frames : List ((Header × List ℕ) × List SendResult) → List (Header × List ℕ)
frames [] = []
frames ((f, rs) ∷ cs) = f ∷ frames cs

-- With their bytes.
abbrev pub calls : List ((Header × List ℕ) × List SendResult) → List (List ℕ × List SendResult)
calls [] = []
calls ((f, rs) ∷ cs) = (encode f, rs) ∷ calls cs

frames_of-calls :
    (cs : List ((Header × List ℕ) × List SendResult)) → frames_of (calls cs) ≡ stream (frames cs)
frames_of-calls [] = refl
frames_of-calls ((f, rs) ∷ cs) = ap (◌++◌ (encode f)) (frames_of-calls cs)

-- One end sends frames, each within the bounds of its fields, and no call asks for a new connection,
-- however the socket takes the bytes; at the end none waits. The bytes that the socket took come to the
-- other end in any pieces, with any timeouts between. Then the loop there, which makes one call more
-- than there are bytes and results of waits, hands out these frames, all of them and in order, and does
-- not ask for a new connection.
pub sent_received :
    (cs : List ((Header × List ℕ) × List SendResult)) (rs : List RecvResult) (fuel : ℕ)
    → All IsFrame (frames cs)
    → (send_frames fresh_tx (calls cs)).need_reconnect ≡ false
    → waiting (send_frames fresh_tx (calls cs)) ≡ []
    → All IsOpen rs
    → incoming rs ≡ (send_frames fresh_tx (calls cs)).wire
    → length (incoming rs) + length rs < fuel
    → ((recv_work fuel fresh_rx rs).0 ≡ frames cs)
      × ((recv_work fuel fresh_rx rs).1.need_reconnect ≡ false)
sent_received cs rs fuel v good out open_rs e h =
    recv_work-stream fuel fresh_rx [] rs (frames cs)
      (record { fits = omega arith; left = refl; good = refl }) v open_rs
      (e
        ∙ sym (append-nil (send_frames fresh_tx (calls cs)).wire)
        ∙ ap (◌++◌ (send_frames fresh_tx (calls cs)).wire) (sym out)
        ∙ send_frames-stream fresh_tx (calls cs) good
        ∙ frames_of-calls cs)
      (omega (arith, h))
