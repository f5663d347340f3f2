-- ===== src/Client/Datagram.antt =====
-- The UDP `recv_frame` of src/UDP.cpp, and the calls of the device and of the program around it.
use scholar_vpn.Prelude.{
  ℕ, ◌+◌, Bool, not, List, Option, none, some, ltb, ◌==◌, if◌then◌else◌, length, take, drop,
}
use scholar_vpn.Queue.{pop, try_pop}
use scholar_vpn.Server.{Header}
use scholar_vpn.Tcp.Recv.{k_tunnel_header, max_payload_len, k_magic, magic_of, header_of}
use scholar_vpn.Client.{Client}

abbrev pub proto_version : Client → ℕ
proto_version c = if c.is_tcp then 2 else 1

-- One datagram; `ours` tells that it came from the address of the server.
unfoldable pub recv_frame : Client → Bool → List ℕ → Option (Header × List ℕ)
recv_frame c ours bytes =
    let h = header_of bytes in
    if length bytes == 0
    then none
    else if not ours
    then none
    else if ltb (length bytes) k_tunnel_header
    then none
    else if not (magic_of bytes == k_magic)
    then none
    else if not (h.version == proto_version c)
    then none
    else if ltb max_payload_len h.payload_len
    then none
    else if ltb (length bytes) (k_tunnel_header + h.payload_len)
    then none
    else some (h, take h.payload_len (drop k_tunnel_header bytes))

-- The PEM text of the key of the server is read in `init`.
unfoldable pub set_identity : Client → Option (List ℕ) → List ℕ → List ℕ → Client
set_identity c priv id token = record c {
  ed25519_priv = priv;
  client_id = id;
  register_token = token;
}

-- The next packet for the device; `none` while the call waits for one.
unfoldable pub recv_ip_packet : Client → Option (Client × Option (List ℕ))
recv_ip_packet c =
    if not c.running
    then some (c, none)
    else elim (pop c.recvqueue) [ none ↦ none | some r ↦ some (record c { recvqueue = r.0 }, r.1) ]

unfoldable pub try_recv_ip_packet : Client → Client × Option (List ℕ)
try_recv_ip_packet c =
    if not c.running
    then (c, none)
    else let (q, r) = try_pop c.recvqueue in (record c { recvqueue = q }, r)
