-- ===== src/Tcp/Serves.antt =====
-- The frames that `read_conn` of server/TCP/tcpserver.cpp hands to the server.
use scholar_vpn.Prelude.{
  ℕ, zero, suc, ◌+◌, ◌≤◌, ◌≡◌, ◌≢◌, refl, sym, ap, ◌∙◌, subst, Bool, true, false, List, [], ◌∷◌,
  ◌++◌, append_assoc, ltb, length, drop, length-append, drop-append, All, arith, by_branch,
}
use scholar_vpn.Server.{Header}
use scholar_vpn.Tcp.Recv.{
  k_tunnel_header, Taken, whole, short, invalid, take_bytes, RecvResult, timed_out, received, gone,
  closed,
}
use scholar_vpn.Tcp.Frames.{encode, IsFrame, take_bytes-encode}
use scholar_vpn.Tcp.Loop.{stream, incoming, IsOpen, part, full, front, length-encode}
use scholar_vpn.Tcp.Server.{
  k_max_rx_buf_bytes, Ending, starved, spent, broken, Served, serve_taken, split_frames, read_conn,
}
use scholar_vpn.Tcp.Heads.{take_head-same, take_head-small}

-- The bytes that one `recv` gives at most.
abbrev pub k_read : ℕ
k_read = 1441 + 64

abbrev pub IsRead : RecvResult → Type 0
IsRead timed_out = Unit
IsRead (received bytes) = length bytes ≤ k_read
IsRead gone = Unit
IsRead closed = Unit

abbrev pub is_broken : Ending → Bool
is_broken starved = false
is_broken spent = false
is_broken broken = true

by_ending :
    {A : Type 0} (P : A → Type 0) (x : Ending) (a b c : A)
    → (x ≡ starved → P a)
    → (x ≡ spent → P b)
    → (x ≡ broken → P c)
    → P (elim x [ starved ↦ a | spent ↦ b | broken ↦ c ])
by_ending P starved a b c f g h = f refl
by_ending P spent a b c f g h = g refl
by_ending P broken a b c f g h = h refl

module _ {S : Type 0} (handle : S → Header → List ℕ → S × Bool) where
  -- The state after some frames.
  abbrev pub serve_all : S → List (Header × List ℕ) → S
  serve_all s [] = s
  serve_all s (f ∷ fs) = serve_all (handle s f.0 f.1).0 fs

  -- No frame asks for the end of the connection, each on the state behind those before.
  abbrev pub Calm : S → List (Header × List ℕ) → Type 0
  Calm s [] = Unit
  Calm s (f ∷ fs) = ((handle s f.0 f.1).1 ≡ false) × Calm (handle s f.0 f.1).0 fs

  -- The first frames of a stream were served, and the others wait, in the buffer and outside.
  pub record Serves (b : ℕ) (s : S) (ys : List ℕ) (fs : List (Header × List ℕ)) (r : Served S)
      : Type 0 where
    pub done : List (Header × List ℕ)
    pub later : List (Header × List ℕ)
    pub in_order : fs ≡ done ++ later
    pub served : r.state ≡ serve_all s done
    pub kept : r.rx_buf ++ ys ≡ stream later
    pub count : length done + r.budget ≡ b
    pub lives : is_broken r.ending ≡ false
    pub whole_later : All IsFrame later
    pub calm_later : Calm r.state later
    pub starves : r.ending ≡ starved → length r.rx_buf + k_read ≤ k_max_rx_buf_bytes

  serve_all-append :
      (s : S) (fs gs : List (Header × List ℕ))
      → serve_all s (fs ++ gs) ≡ serve_all (serve_all s fs) gs
  serve_all-append s [] gs = refl
  serve_all-append s (f ∷ fs) gs = serve_all-append (handle s f.0 f.1).0 fs gs

  -- Frames that are served behind others.
  served_behind :
      (b : ℕ) (s : S) (ys zs : List ℕ) (fs : List (Header × List ℕ)) (r t : Served S)
      (d : Serves b s ys fs r)
      → Serves r.budget r.state zs d.later t
      → Serves b s zs fs t
  served_behind b s ys zs fs r t d e = record {
    done = d.done ++ e.done;
    later = e.later;
    in_order = d.in_order ∙ ap (◌++◌ d.done) e.in_order ∙ sym (append_assoc d.done e.done e.later);
    served =
        e.served ∙ ap (λ x. serve_all x e.done) d.served ∙ sym (serve_all-append s d.done e.done);
    kept = e.kept;
    count = omega (arith, d.count, e.count, length-append d.done e.done);
    lives = e.lives;
    whole_later = e.whole_later;
    calm_later = e.calm_later;
    starves = e.starves;
  }

  split_frames-Serves :
      (b : ℕ) (s : S) (u ys : List ℕ) (fs : List (Header × List ℕ))
      → All IsFrame fs
      → Calm s fs
      → u ++ ys ≡ stream fs
      → Serves b s ys fs (split_frames handle b s u)
  unfolding split_frames serve_taken
  split_frames-Serves zero s u ys fs v m e = record {
    done = [];
    later = fs;
    in_order = refl;
    served = refl;
    kept = e;
    count = omega arith;
    lives = refl;
    whole_later = v;
    calm_later = m;
    starves = λ x. absurd (cc);
  }
  split_frames-Serves (suc b) s u ys fs v m e = elim (front u ys fs v e) [
    | part t left ↦
        let g = take_head-same u short t apart in
        subst Goes (sym g) (record {
          done = [];
          later = fs;
          in_order = refl;
          served = refl;
          kept = e;
          count = omega arith;
          lives = refl;
          whole_later = v;
          calm_later = m;
          starves = λ _. omega (arith, take_head-small u g);
        })
    | full f later zs p q t w ws ↦
        let g =
          take_head-same u (whole f.0 f.1) (ap take_bytes q ∙ take_bytes-encode f zs w)
            (whole_apart f) in
        let left = ap (drop (k_tunnel_header + f.0.payload_len)) q ∙ passed f zs w in
        subst Goes (sym g) (
          by_branch Ends (handle s f.0 f.1).1 _ _
            (λ x. let y = (subst (Calm s) p m).0 in absurd (cc))
            (λ _.
              subst (λ z. Ends (split_frames handle b (handle s f.0 f.1).0 z)) (sym left)
                (one_more f later zs p (
                  split_frames-Serves b (handle s f.0 f.1).0 zs ys later ws (subst (Calm s) p m).1
                    t))))
  ]
    where
      Ends : Served S → Type 0
      Ends r = Serves (suc b) s ys fs r

      Goes : Taken → Type 0
      Goes t = Ends (serve_taken handle (split_frames handle b) b s u t)

      apart : short ≢ invalid
      apart h = absurd (cc)

      whole_apart : (f : Header × List ℕ) → whole f.0 f.1 ≢ invalid
      whole_apart f h = absurd (cc)

      passed :
          (f : Header × List ℕ) (zs : List ℕ)
          → IsFrame f
          → drop (k_tunnel_header + f.0.payload_len) (encode f ++ zs) ≡ zs
      passed f zs w =
          ap (λ n. drop n (encode f ++ zs)) (sym (length-encode f w)) ∙ drop-append (encode f) zs

      one_more :
          (f : Header × List ℕ) (later : List (Header × List ℕ)) (zs : List ℕ)
          → fs ≡ f ∷ later
          → Serves b (handle s f.0 f.1).0 ys later (split_frames handle b (handle s f.0 f.1).0 zs)
          → Ends (split_frames handle b (handle s f.0 f.1).0 zs)
      one_more f later zs p r = record {
        done = f ∷ r.done;
        later = r.later;
        in_order = p ∙ ap (◌∷◌ f) r.in_order;
        served = r.served;
        kept = r.kept;
        count = omega (arith, r.count);
        lives = r.lives;
        whole_later = r.whole_later;
        calm_later = r.calm_later;
        starves = r.starves;
      }

  still :
      (b : ℕ) (s : S) (u ys : List ℕ) (fs : List (Header × List ℕ))
      → All IsFrame fs
      → Calm s fs
      → length u + k_read ≤ k_max_rx_buf_bytes
      → u ++ ys ≡ stream fs
      → Serves b s ys fs (record { state = s; rx_buf = u; budget = b; ending = starved })
  still b s u ys fs v m h e = record {
    done = [];
    later = fs;
    in_order = refl;
    served = refl;
    kept = e;
    count = omega arith;
    lives = refl;
    whole_later = v;
    calm_later = m;
    starves = λ _. h;
  }

  -- A call of `read_conn` on a stream of frames, whole or in pieces, where no frame asks for the end of
  -- the connection, each `recv` gives 1505 bytes at most and the buffer has room for one: it serves the
  -- first frames of the stream, in order and once each, one of the budget for each of them; the others
  -- wait, in the buffer and in the socket, without a gap; and the connection lives.
  pub read_conn-Serves :
      (b : ℕ) (s : S) (u : List ℕ) (rs : List RecvResult) (fs : List (Header × List ℕ))
      → All IsFrame fs
      → Calm s fs
      → All IsOpen rs
      → All IsRead rs
      → length u + k_read ≤ k_max_rx_buf_bytes
      → u ++ incoming rs ≡ stream fs
      → Serves b s (incoming (read_conn handle b s u rs).1) fs (read_conn handle b s u rs).0
  unfolding read_conn
  read_conn-Serves b s u [] fs v m o i h e = still b s u [] fs v m h e
  read_conn-Serves b s u (timed_out ∷ rs) fs v m o i h e = still b s u (incoming rs) fs v m h e
  read_conn-Serves b s u (received bytes ∷ rs) fs v m o i h e =
      by_branch Ends (ltb k_max_rx_buf_bytes (length u + length bytes)) _ _
        (λ x. let y = over (length u) (length bytes) h i.0 x in absurd (cc))
        λ _.
          by_ending Ends r.ending _ _ _
            (λ x. served_behind b s (incoming rs) _ fs r _ d (
              read_conn-Serves r.budget r.state r.rx_buf rs d.later d.whole_later d.calm_later o.1
                i.1 (d.starves x) d.kept))
            (λ _. d) (λ x. let y = d.lives in absurd (cc))
    where
      Ends : Served S × List RecvResult → Type 0
      Ends x = Serves b s (incoming x.1) fs x.0

      r : Served S
      r = split_frames handle b s (u ++ bytes)

      d : Serves b s (incoming rs) fs r
      d =
          split_frames-Serves b s (u ++ bytes) (incoming rs) fs v m
            (append_assoc u bytes (incoming rs) ∙ e)

      over : (m n : ℕ) → m + 1505 ≤ 524288 → n ≤ 1505 → ltb 524288 (m + n) ≡ true → true ≡ false
      over m n a b c = ground (arith, a, b, c)
  read_conn-Serves b s u (gone ∷ rs) fs v m o i h e = absurd (cc)
  read_conn-Serves b s u (closed ∷ rs) fs v m o i h e = absurd (cc)
