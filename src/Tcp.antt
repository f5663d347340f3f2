-- ===== src/Tcp.antt =====
-- The TCP tunnel, src/tcp.cpp and server/TCP/tcpserver.cpp: a frame is a header of 12 bytes and its payload.
pub mod Send
pub mod Stream
pub mod Recv
pub mod Frames
pub mod Received
pub mod Loop
pub mod Pair
pub mod Server
pub mod Heads
pub mod Serves
pub mod Output
pub mod Written
mod Tests
use scholar_vpn.Prelude.{ℕ, ◌+◌, ◌*◌, ◌^◌, ◌/◌, ◌%◌, Bool, List, [], ◌∷◌, ◌++◌}

-- Behind `m_txPendingOff` bytes of the backlog, the rest waits. `wire` logs the bytes that the socket
-- took.
pub record Tx : Type 0 where
  pub tx_pending : List ℕ
  pub tx_pending_off : ℕ
  pub need_reconnect : Bool
  pub wire : List ℕ

-- What a call of `send` gives: so many bytes, or the socket takes none now, where the poll lets the
-- loop go on, or the deadline is over, or the connection is dead.
pub data SendResult : Type 0 where
  took : ℕ → SendResult
  again late dead : SendResult
