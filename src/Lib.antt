-- ===== src/Lib.antt =====
-- ScholarVPN: the parts of the program that carry its logic, and what they are proved to do.
--
-- A client and a server exchange encrypted datagrams. Each received frame carries a sequence number
-- that passes an anti-replay window. The server leases a virtual address to each client from a pool
-- and remembers the last address of an identity. The client keeps its tunnel up with a worker that
-- tries again after growing waits. The frames go as datagrams or over a TCP connection. The server
-- takes the domain out of a tunnelled packet and asks a black list about it. The admin programs
-- speak frames with a length in front and flat JSON.
--
-- Files, and the code that they model:
--   Prelude      Boolean tests, lists over the native numbers, bits of numbers.
--   Replay       src/replay_window.h, the class ReplayWindow. `verdicts` runs `accept` over the
--                numbers that arrive; History and Refine hold the specification without a window.
--   Vip          server/UDP/Session.h, the class VirtualIpPool; Vip/Lease is
--                UDP::allocate_virtual_ip and release_virtual_ip of server/UDP/UDP.cpp, which
--                use the pool. Sets and maps are lists; htonl and ntohl are a record with their laws,
--                and the draws of the random generator are an argument.
--   Wire         server/ServerAdmin/AdminWire.h: Wire/Frames has send_frame, recv_frame and Framer,
--                Wire/Json has escape, Json, find_value and get_string. A connection is the list of
--                chunks that recv returns.
--   Server       server/UDP/UDP.cpp with server/UDP/Session.h: the sessions. Table has
--                get_or_create_session and release_session, Send has send_packet, Limiter
--                allow_handshake_recompute, Auth and Identity the three stages of the hand-shake,
--                Receive has handle_framed, Beat heartbeat_work, send_work and forward_tun_packet,
--                and Steps runs them all, one call after the other. Held, Moves, Seats, Valid and
--                Keeps carry the invariant of the table and of the addresses; Rate, Quiet, Tun,
--                Packets, Passes, Forged and Tokens are about the limiter, the frames and the tokens.
--                OpenSSL, the database of services, the clock, random numbers and the results of system calls are
--                arguments; sealing is symbolic. A file of tokens or clients is its list of lines.
--   Client       src/UDP.cpp with src/UDP.h: the client's end of the tunnel. Send has send_packet and
--                raw_send, Message build_identity_message, Receive handle_frame, Datagram recv_frame,
--                and Work send_work, one turn for each round of its loops. `step` is one turn of a
--                thread: a round of send_work, a frame for handle_frame, a packet of the device, or
--                stop. Sound, Keeps, Opening, Closing and Turns carry the invariant of these steps,
--                Paced and Wait are about the time of the two waits, Agreed about the key exchange with
--                the server, Identity and Accepted about the identity message there, Forged about
--                frames that are not authentic. OpenSSL, the clock and what becomes of a sent frame are
--                arguments.
--   Tcp          src/tcp.cpp and server/TCP/tcpserver.cpp: Send has raw_send and flush_tx_pending, Recv
--                has recv_frame, take_frame and compact_rx in the loop recv_work. What send, poll and
--                recv give is a list of results; behind its last one the socket takes nothing until the
--                deadline. Frames has the layout of a frame; Stream, Received, Loop and Pair follow the
--                bytes. The loop makes as many calls as its fuel, and one more than there are bytes and
--                results is enough. Server is read_conn of the server, with handle_framed as an
--                argument, Heads and Serves are about the frames that it hands on, and Output and
--                Written are about its flush_conn_tx.
--   Reconnect    src/reconnect_manager.cpp: worker_loop with connect_once. What the network and the
--                calls of stop do to an attempt is an `Outcome`, and the worker runs over a list of
--                them. It logs its states and its waits.
--   Service      server/ServiceDB.cpp: Service/Extract has extract_domain with extract_dns_name and
--                extract_sni, Service/Blacklist the cached black list. A query is an argument.
--   Update       src/update/update_policy.cpp: versions, policy texts and the decision.
--   Cidr         src/platform/cidr.h, and in Cidr/IpList parse_text of src/platform/iplist.cpp.
--   Ini          src/platform/ini_doc.h, the class IniDoc: `load` and `save` between the bytes of a file
--                and its lines, `get`, `set`, `del_key` and `del_section`.
--   Queue        src/PacketQueue.cpp, and QueueBuffer of server/Buffer/QueueBuffer.cpp.
--
-- Numbers are unbounded natural numbers where the code cannot overflow; the 64-bit mask of the window
-- and the 32-bit hash of an address are reduced modulo a power of two. Bytes are numbers.
--
-- Bounds and fuel: the loop over TLS extensions has the length of the payload plus one as fuel, and
-- the loop over DNS labels the 16 rounds of the source; running out of the former is a fault. Each
-- round of the former moves on by four bytes or more. The other loops go over lists, or over the
-- range of the pool, whose size is their number of rounds. The client's waits end by the clock and
-- by the number of retries, which the turns of a run give.
--
-- `drain_queue` sends at most 256 packets of a session in a round, which is the bound in send_work.
-- The 64-bit differences of times in heartbeat_work are taken modulo 2 ^ 64.
--
-- The rate limiter counts fiftieths of a token, one of which comes back in a millisecond, where the
-- code counts in doubles. A session that the table does not hold is one that the code has marked as
-- released.
--
-- Not modelled: sockets, TLS, encryption, files, the database, the operating system's routes and
-- devices, the user interfaces, logging, and locks (an operation that runs under one mutex is one step,
-- and so is one call of a handler of the server, and one round of a loop of the client).
pub mod Cidr
pub mod Client
pub mod Ini
pub mod Prelude
pub mod Queue
pub mod Reconnect
pub mod Replay
pub mod Server
pub mod Service
pub mod Tcp
pub mod Update
pub mod Vip
pub mod Wire
