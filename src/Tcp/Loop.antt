-- ===== src/Tcp/Loop.antt =====
-- `recv_work` of src/UDP.cpp over the TCP tunnel of src/tcp.cpp, on a stream of frames in any pieces.
use native.Mathlib.Decide.{dec_lt}
use scholar_vpn.Prelude.{
  ℕ, zero, suc, ◌+◌, ◌≤◌, ◌<◌, ◌≡◌, refl, sym, ap, ◌∙◌, subst, Bool, true, false, List, [], ◌∷◌,
  ◌++◌, append_assoc, length, drop, length-append, drop-append, cut, All, arith,
}
use scholar_vpn.Server.{Header}
use scholar_vpn.Tcp.Recv.{
  k_tunnel_header, Rx, RecvResult, timed_out, received, gone, closed, unread, Taken, whole, short,
  take_bytes, take_frame, advance, settled, from_socket, goes_on, dispatch, recv_work,
}
use scholar_vpn.Tcp.Frames.{encode, IsFrame, take_bytes-encode, take_bytes-nil, take_bytes-short}
use scholar_vpn.Tcp.Received.{Reads, Stands, advance-Stands, Stands-Reads, fed-Stands}

abbrev pub stream : List (Header × List ℕ) → List ℕ
stream [] = []
stream (f ∷ fs) = encode f ++ stream fs

-- The bytes that come in.
abbrev pub incoming : List RecvResult → List ℕ
incoming [] = []
incoming (timed_out ∷ rs) = incoming rs
incoming (received bytes ∷ rs) = bytes ++ incoming rs
incoming (gone ∷ rs) = []
incoming (closed ∷ rs) = []

-- The connection lives on.
abbrev pub is_open : RecvResult → Bool
is_open timed_out = true
is_open (received bytes) = true
is_open gone = false
is_open closed = false

abbrev pub IsOpen : RecvResult → Type 0
IsOpen r = is_open r ≡ true

-- What stands in front of a stream, of which `u` is there and `ys` comes later.
pub data Front (u ys : List ℕ) (fs : List (Header × List ℕ)) : Type 0 where
  part : take_bytes u ≡ short → (length ys ≡ 0 → fs ≡ []) → Front u ys fs
  full :
      (f : Header × List ℕ) (later : List (Header × List ℕ)) (zs : List ℕ)
      → fs ≡ f ∷ later
      → u ≡ encode f ++ zs
      → zs ++ ys ≡ stream later
      → IsFrame f
      → All IsFrame later
      → Front u ys fs

pub front :
    (u ys : List ℕ) (fs : List (Header × List ℕ))
    → All IsFrame fs
    → u ++ ys ≡ stream fs
    → Front u ys fs
front [] ys [] v e = part take_bytes-nil (λ _. refl)
front (x ∷ u) ys [] v e = absurd (cc)
front u ys (f ∷ fs) v e = elim (dec_lt (length u) (length (encode f))) [
  | yes l ↦ part (take_bytes-short f u ys (stream fs) v.0 e l) (λ z.
      absurd (
        omega (arith, l, z, ap length e, length-append u ys, length-append (encode f) (stream fs))))
  | no l ↦
      let (zs, q, r) = cut (encode f) (stream fs) u ys e (omega (arith, l)) in
      full f fs zs refl q r v.0 v.1
]

length-drop : (n : ℕ) (xs : List ℕ) → n ≤ length xs → n + length (drop n xs) ≡ length xs
length-drop zero xs h = omega arith
length-drop (suc n) [] h = absurd (omega arith)
length-drop (suc n) (x ∷ xs) h = omega (arith, length-drop n xs (omega (arith, h)))

pub length-encode :
    (f : Header × List ℕ) → IsFrame f → length (encode f) ≡ k_tunnel_header + f.0.payload_len
length-encode (h, p) v = omega (arith, v.len)

-- The frame in front is handed out.
handed : Rx → Header → Rx
handed r h = record r { consumed = k_tunnel_header + h.payload_len }

handed-Reads :
    (r : Rx) (u : List ℕ) (f : Header × List ℕ) (zs : List ℕ)
    → Stands r u
    → IsFrame f
    → u ≡ encode f ++ zs
    → Reads (handed r f.0) zs
unfolding handed
handed-Reads r u f zs s v e =
    let n = length-encode f v in
    let m = length-drop r.rx_off r.rx_buf s.fits in
    let l = ap length (s.left ∙ e) in
    record {
      fits = omega (arith, m, l, n, length-append (encode f) zs);
      left =
          ap (λ k. drop k (unread r)) (sym n)
          ∙ ap (drop (length (encode f))) (s.left ∙ e)
          ∙ drop-append (encode f) zs;
      good = s.good;
    }

take_frame-whole :
    (r : Rx) (u : List ℕ) (f : Header × List ℕ) (zs : List ℕ)
    → Stands r u
    → IsFrame f
    → u ≡ encode f ++ zs
    → take_frame r ≡ (handed r f.0, whole f.0 f.1)
unfolding take_frame handed
take_frame-whole r u f zs s v e =
    let t : take_bytes (unread r) ≡ whole f.0 f.1 =
      ap take_bytes (s.left ∙ e) ∙ take_bytes-encode f zs v in
    rw (t, take_frame) refl

take_frame-short :
    (r : Rx) (u : List ℕ) → Stands r u → take_bytes u ≡ short → take_frame r ≡ (r, short)
unfolding take_frame
take_frame-short r u s e =
    let t : take_bytes (unread r) ≡ short = ap take_bytes s.left ∙ e in rw (t, take_frame) refl

-- What the calls hand out, and that none asks for a new connection.
abbrev Yields : List (Header × List ℕ) → List (Header × List ℕ) × Rx → Type 0
Yields fs r = (r.0 ≡ fs) × (r.1.need_reconnect ≡ false)

Yields-cons :
    (f : Header × List ℕ) (later fs : List (Header × List ℕ)) (r : List (Header × List ℕ) × Rx)
    → fs ≡ f ∷ later
    → Yields later r
    → Yields fs (f ∷ r.0, r.1)
Yields-cons f later fs r e y = (ap (◌∷◌ f) y.0 ∙ sym e, y.1)

work-whole :
    (fuel : ℕ) (r r' : Rx) (rs : List RecvResult) (f : Header × List ℕ)
    → take_frame (advance r) ≡ (r', whole f.0 f.1)
    → recv_work (suc fuel) r rs ≡ (f ∷ (recv_work fuel r' rs).0, (recv_work fuel r' rs).1)
unfolding recv_work dispatch settled
work-whole fuel r r' rs f e = ap (λ x. dispatch (recv_work fuel) x rs) e

work-end :
    (fuel : ℕ) (r r' : Rx)
    → take_frame (advance r) ≡ (r', short)
    → recv_work (suc fuel) r [] ≡ ([], r')
unfolding recv_work dispatch
work-end fuel r r' e = ap (λ x. dispatch (recv_work fuel) x []) e

work-socket :
    (fuel : ℕ) (r r' : Rx) (x : RecvResult) (xs : List RecvResult)
    → take_frame (advance r) ≡ (r', short)
    → recv_work (suc fuel) r (x ∷ xs)
      ≡ goes_on (from_socket r' x) (recv_work fuel (from_socket r' x).rx xs)
unfolding recv_work dispatch
work-socket fuel r r' x xs e = ap (λ y. dispatch (recv_work fuel) y (x ∷ xs)) e

-- The calls that follow, by induction.
abbrev Follows : ℕ → List RecvResult → Type 0
Follows fuel rs =
    (r : Rx) (u : List ℕ) (fs : List (Header × List ℕ))
    → Reads r u
    → All IsFrame fs
    → u ++ incoming rs ≡ stream fs
    → length u + length (incoming rs) + length rs < fuel
    → Yields fs (recv_work fuel r rs)

received-Yields :
    (fuel : ℕ) (r : Rx) (u : List ℕ) (rs : List RecvResult) (fs : List (Header × List ℕ))
    → Stands r u
    → All IsFrame fs
    → u ++ incoming rs ≡ stream fs
    → length u + length (incoming rs) + length rs < fuel
    → Follows fuel rs
    → Yields fs (goes_on (settled (take_frame r)) (recv_work fuel (settled (take_frame r)).rx rs))
unfolding settled
received-Yields fuel r u rs fs s v e h next = elim (front u (incoming rs) fs v e) [
  | full f later zs p q t w ws ↦
      let n = ap length q in
      subst Goes (sym (take_frame-whole r u f zs s w q)) (
        Yields-cons f later fs (recv_work fuel (handed r f.0) rs) p (
          next (handed r f.0) zs later (handed-Reads r u f zs s w q) ws t
            (omega (arith, h, n, length-append (encode f) zs))))
  | part t none_left ↦
      subst Goes (sym (take_frame-short r u s t)) (next r u fs (Stands-Reads r u s) v e h)
]
  where
    Goes : Rx × Taken → Type 0
    Goes x = Yields fs (goes_on (settled x) (recv_work fuel (settled x).rx rs))

socket-Yields :
    (fuel : ℕ) (r : Rx) (u : List ℕ) (x : RecvResult) (xs : List RecvResult)
    (fs : List (Header × List ℕ))
    → Stands r u
    → All IsFrame fs
    → IsOpen x
    → u ++ incoming (x ∷ xs) ≡ stream fs
    → length u + length (incoming (x ∷ xs)) + length xs < fuel
    → Follows fuel xs
    → Yields fs (goes_on (from_socket r x) (recv_work fuel (from_socket r x).rx xs))
unfolding from_socket
socket-Yields fuel r u timed_out xs fs s v o e h next = next r u fs (Stands-Reads r u s) v e h
socket-Yields fuel r u (received bytes) xs fs s v o e h next =
    received-Yields fuel (record r { rx_buf = r.rx_buf ++ bytes }) (u ++ bytes) xs fs
      (fed-Stands r u bytes s) v (append_assoc u bytes (incoming xs) ∙ e)
      (omega (arith, h, length-append u bytes, length-append bytes (incoming xs))) next
socket-Yields fuel r u gone xs fs s v o e h next = absurd (cc)
socket-Yields fuel r u closed xs fs s v o e h next = absurd (cc)

-- Calls of `recv_frame`, with a frame or a wait each: none that is left to make finds a frame.
pub recv_work-stream :
    (fuel : ℕ) (r : Rx) (u : List ℕ) (rs : List RecvResult) (fs : List (Header × List ℕ))
    → Reads r u
    → All IsFrame fs
    → All IsOpen rs
    → u ++ incoming rs ≡ stream fs
    → length u + length (incoming rs) + length rs < fuel
    → Yields fs (recv_work fuel r rs)
recv_work-stream zero r u rs fs a v o e h = absurd (omega (arith, h))
recv_work-stream (suc fuel) r u rs fs a v o e h = elim (front u (incoming rs) fs v e) [
  | full f later zs p q t w ws ↦
      let n = ap length q in
      rw
        (work-whole fuel r (handed (advance r) f.0) rs f
          (take_frame-whole (advance r) u f zs (advance-Stands r u a) w q))
        (Yields-cons f later fs (recv_work fuel (handed (advance r) f.0) rs) p (
          recv_work-stream fuel (handed (advance r) f.0) zs rs later
            (handed-Reads (advance r) u f zs (advance-Stands r u a) w q) ws o t
            (omega (arith, h, n, length-append (encode f) zs))))
  | part t none_left ↦
      waits rs fs v o e h (take_frame-short (advance r) u (advance-Stands r u a) t) none_left
        (advance-Stands r u a)
        (λ xs q r' u' fs' a' v' e' h'. recv_work-stream fuel r' u' xs fs' a' v' q e' h')
]
  where
    waits :
        (rs : List RecvResult) (fs : List (Header × List ℕ))
        → All IsFrame fs
        → All IsOpen rs
        → u ++ incoming rs ≡ stream fs
        → length u + length (incoming rs) + length rs < suc fuel
        → take_frame (advance r) ≡ (advance r, short)
        → (length (incoming rs) ≡ 0 → fs ≡ [])
        → Stands (advance r) u
        → ((xs : List RecvResult) → All IsOpen xs → Follows fuel xs)
        → Yields fs (recv_work (suc fuel) r rs)
    waits [] fs v o e h t left s next = rw (work-end fuel r (advance r) t) (sym (left refl), s.good)
    waits (x ∷ xs) fs v o e h t left s next =
        rw (work-socket fuel r (advance r) x xs t)
          (socket-Yields fuel (advance r) u x xs fs s v o.0 e (omega (arith, h)) (next xs o.1))
