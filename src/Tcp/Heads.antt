-- ===== src/Tcp/Heads.antt =====
-- The front of a buffer of server/TCP/tcpserver.cpp, against that of src/tcp.cpp.
use scholar_vpn.Prelude.{
  ℕ, ◌+◌, ◌<◌, ◌≡◌, ◌≢◌, sym, Bool, true, false, not, ◌||◌, List, ltb, ◌==◌, if◌then◌else◌, length,
  arith, by_branch,
}
use scholar_vpn.Tcp.Recv.{
  k_tunnel_header, max_payload_len, k_magic, v_tcp, magic_of, header_of, Taken, short, invalid,
  take_bytes,
}
use scholar_vpn.Tcp.Server.{take_head}

-- Without the test of the version.
one_test_less :
    (few magic version long little : Bool) (w t : Taken)
    → (if few
        then short
        else if not magic || not version
        then invalid
        else if long
        then invalid
        else if little
        then short
        else w)
      ≡ t
    → t ≢ invalid
    → (if few
        then short
        else if not magic
        then invalid
        else if long
        then invalid
        else if little
        then short
        else w)
      ≡ t
one_test_less true magic version long little w t e f = e
one_test_less false false version long little w t e f = absurd (f (sym e))
one_test_less false true false long little w t e f = absurd (f (sym e))
one_test_less false true true long little w t e f = e

pub take_head-same : (b : List ℕ) (t : Taken) → take_bytes b ≡ t → t ≢ invalid → take_head b ≡ t
unfolding take_bytes take_head
take_head-same b t =
    one_test_less (ltb (length b) k_tunnel_header) (magic_of b == k_magic)
      ((header_of b).version == v_tcp) (ltb max_payload_len (header_of b).payload_len)
      (ltb (length b) (k_tunnel_header + (header_of b).payload_len)) _ t

-- A buffer without a whole frame is small.
pub take_head-small :
    (b : List ℕ) → take_head b ≡ short → length b < k_tunnel_header + max_payload_len
unfolding take_head
take_head-small b =
    by_branch Small (ltb (length b) k_tunnel_header) _ _ (λ h _. few (length b) h)
      λ _.
        by_branch Small (not (magic_of b == k_magic)) _ _ (λ _ e. absurd (cc))
          λ _.
            by_branch Small (ltb max_payload_len (header_of b).payload_len) _ _ (λ _ e. absurd (cc))
              λ g.
                by_branch Small (ltb (length b) (k_tunnel_header + (header_of b).payload_len)) _ _
                  (λ h _. cut_off (length b) (header_of b).payload_len g h) (λ _ e. absurd (cc))
  where
    Small : Taken → Type 0
    Small t = t ≡ short → length b < k_tunnel_header + max_payload_len

    few : (n : ℕ) → ltb n 12 ≡ true → n < 1441
    few n h = ground (arith, h)

    cut_off : (n k : ℕ) → ltb 1429 k ≡ false → ltb n (12 + k) ≡ true → n < 1441
    cut_off n k g h = ground (arith, g, h)
