-- ===== src/Server/Keeps/Sends.antt =====
-- `send_packet` of server/UDP/UDP.cpp and the first stages of the hand-shake keep the invariant.
use scholar_vpn.Prelude.{
  ℕ, ◌+◌, ◌%◌, ◌^◌, ◌≡◌, refl, Bool, true, List, ◌∷◌, ltb, leb, length, by_branch, by_option,
}
use scholar_vpn.Vip.{ByteOrder}
use scholar_vpn.Server.{Session, Server, Frame, Outside}
use scholar_vpn.Server.Table.{put_session}
use scholar_vpn.Server.Send.{
  k_seq_rekey_limit, k_max_tcp_tx_buf_bytes, body_of, transmit, retire, send_packet,
}
use scholar_vpn.Server.Held.{Present, SameAddress, find-All, store-Present}
use scholar_vpn.Server.Valid.{Good, IsValid, put-IsValid, release_session-IsValid}

module _ (o : ByteOrder) where
  pub find-Good : (sv : Server) (s : Session) → IsValid o sv → Present sv.sessions s → Good s
  find-Good sv s v e = find-All Good sv.sessions s.peer_key s e v.good

  -- The frames sent, the queue of the TUN device, the files and the buckets play no part.
  pub sent-IsValid :
      (sv : Server) (l : List Frame) → IsValid o sv → IsValid o (record sv { sent = l })
  sent-IsValid sv l v = record {
    pool = v.pool;
    has_pool = v.has_pool;
    pool_ok = v.pool_ok;
    spans = v.spans;
    exact = v.exact;
    distinct = v.distinct;
    good = v.good;
    seats = v.seats;
  }

  abbrev Kept : Server × Bool → Type 0
  Kept r = IsValid o r.0

  transmit-IsValid :
      (sv : Server) (s t : Session) (f : Frame) (total : ℕ) (net : Bool)
      → IsValid o sv
      → Present sv.sessions s
      → t.peer_key ≡ s.peer_key
      → SameAddress t s
      → Good t
      → IsValid o (transmit sv t f total net).0
  unfolding transmit
  transmit-IsValid sv s t f total net v e k a g =
      by_branch Kept t.is_tcp _ _
        (λ b.
          by_branch Kept (ltb k_max_tcp_tx_buf_bytes (t.tcp_tx_bytes + total)) _ _
            (λ c. put-IsValid o sv s (record t { tcp_drop = true }) v e k a g)
            (λ c.
              sent-IsValid (put_session sv (record t { tcp_tx_bytes = t.tcp_tx_bytes + total }))
                (f ∷ sv.sent)
                (put-IsValid o sv s (record t { tcp_tx_bytes = t.tcp_tx_bytes + total }) v e k a
                  g)))
        (λ b.
          by_branch Kept net _ _
            (λ c. sent-IsValid (put_session sv t) (f ∷ sv.sent) (put-IsValid o sv s t v e k a g))
            (λ c. put-IsValid o sv s t v e k a g))

  retire-IsValid :
      (out : Outside) (sv : Server) (s t : Session)
      → IsValid o sv
      → Present sv.sessions s
      → t.peer_key ≡ s.peer_key
      → SameAddress t s
      → Good t
      → IsValid o (retire out o sv t)
  unfolding retire
  retire-IsValid out sv s t v e k a g =
      by_branch (IsValid o) t.is_tcp _ _
        (λ b. put-IsValid o sv s (record t { tcp_drop = true }) v e k a g)
        (λ b.
          release_session-IsValid o out (put_session sv t) t.peer_key
            (put-IsValid o sv s t v e k a g))

  pub send_packet-IsValid :
      (out : Outside) (sv : Server) (s : Session) (kind : ℕ) (bytes : List ℕ) (net : Bool)
      → IsValid o sv
      → Present sv.sessions s
      → IsValid o (send_packet out o sv s kind bytes net).0
  unfolding send_packet
  send_packet-IsValid out sv s kind bytes net v e =
      let g = find-Good sv s v e in
      let t : Session = record s { seq = (s.seq + 1) % 2 ^ 32 } in
      by_branch Kept (ltb 1400 (length bytes)) _ _ (λ b. v)
        λ b.
          by_branch Kept (leb k_seq_rekey_limit s.seq) _ _
            (λ c. retire-IsValid out sv s t v e refl (refl, refl, refl) g)
            λ c.
              by_option Kept (body_of s kind bytes) _ _
                (λ d. put-IsValid o sv s t v e refl (refl, refl, refl) g)
                (λ x d. transmit-IsValid sv s t _ x.1 net v e refl (refl, refl, refl) g)

  -- A change of a session that keeps its address, and an answer to it.
  pub put_send-IsValid :
      (out : Outside) (sv : Server) (s t : Session) (kind : ℕ) (bytes : List ℕ) (net : Bool)
      → IsValid o sv
      → Present sv.sessions s
      → t.peer_key ≡ s.peer_key
      → SameAddress t s
      → Good t
      → IsValid o (send_packet out o (put_session sv t) t kind bytes net).0
  put_send-IsValid out sv s t kind bytes net v e k a g =
      send_packet-IsValid out (put_session sv t) t kind bytes net (put-IsValid o sv s t v e k a g)
        (store-Present sv.sessions s t e k)
