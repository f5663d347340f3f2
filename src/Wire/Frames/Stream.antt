-- ===== src/Wire/Frames/Stream.antt =====
-- server/ServerAdmin/AdminWire.h: a run of frames, cut into chunks, through the framer.
use native.Mathlib.Decide.{dec_lt}
use scholar_vpn.Prelude.{
  Option-cases, subst, ℕ, zero, suc, ◌+◌, ◌<◌, ◌≤◌, ◌≡◌, ◌⊎◌, refl, sym, ap, ◌∙◌, Bool, true, false,
  List, [], ◌∷◌, ◌++◌, none, some, length, take, drop, arith, inl, inr, All, append_assoc,
  length-append, take-append, drop-append, cut,
}
use scholar_vpn.Wire.Frames.{
  k_max_frame, header, send_frame, send_all, Framer, feed, frame_len, next, drain, receive,
}

abbrev pub frame : List ℕ → List ℕ
frame p = header (length p) ++ p

-- The bytes of a run of frames.
abbrev pub stream : List (List ℕ) → List ℕ
stream [] = []
stream (p ∷ ps) = frame p ++ stream ps

abbrev pub Fits : List ℕ → Type 0
Fits p = length p ≤ k_max_frame

header_len : (n : ℕ) (rest : List ℕ) → n ≤ k_max_frame → frame_len (header n ++ rest) ≡ n
header_len n rest h = omega arith

drop_four : (n a b c d : ℕ) (xs : List ℕ) → drop (4 + n) (a ∷ b ∷ c ∷ d ∷ xs) ≡ drop n xs
drop_four n a b c d xs = let e : 4 + n ≡ suc (suc (suc (suc n))) = omega arith in rw e

-- One call of `next`, by the length that the header states.
next_enough :
    (f : Framer) (n : ℕ)
    → frame_len f.buf ≡ n
    → n ≤ k_max_frame
    → 4 + n ≤ length f.buf
    → next f ≡ (some (take n (drop 4 f.buf)), record f { buf = drop (4 + n) f.buf })
unfolding next
next_enough f n e h k = ground (arith, e)

next_waits :
    (f : Framer)
    → (length f.buf < 4) ⊎ ((frame_len f.buf ≤ k_max_frame) × (length f.buf < 4 + frame_len f.buf))
    → next f ≡ (none, f)
unfolding next
next_waits f h = ground arith

-- On a buffer that begins with a whole frame.
next_whole :
    (b : Bool) (p rest : List ℕ)
    → Fits p
    → next (record { buf = frame p ++ rest; bad = b }) ≡ (some p, record { buf = rest; bad = b })
next_whole b p rest h =
    next_enough (record { buf = frame p ++ rest; bad = b }) (length p)
      (header_len (length p) (p ++ rest) h) h (omega (arith, length-append p rest))
    ∙ λ i. (some (take-append p rest i), record { buf = dropped i; bad = b })
  where
    dropped : drop (4 + length p) (frame p ++ rest) ≡ rest
    dropped = drop_four (length p) _ _ _ _ (p ++ rest) ∙ drop-append p rest

-- On one that holds less than the frame that comes.
next_short :
    (b : Bool) (p xs ys rest : List ℕ)
    → Fits p
    → xs ++ ys ≡ frame p ++ rest
    → length xs < length (frame p)
    → next (record { buf = xs; bad = b }) ≡ (none, record { buf = xs; bad = b })
next_short b p xs ys rest h e k =
    next_waits (record { buf = xs; bad = b })
      (elim (dec_lt (length xs) 4) [
        | yes l ↦ inl l
        | no l ↦
            let (zs, q, r) = cut (header (length p)) (p ++ rest) xs ys e (omega arith) in
            let m : frame_len xs ≡ length p = ap frame_len q ∙ header_len (length p) zs h in
            inr (omega (arith, m), omega (arith, m))
      ])

-- What is left of a stream when `drain` has taken its whole frames.
record Drained (b : Bool) (xs ys : List ℕ) (ps : List (List ℕ)) (r : List (List ℕ) × Framer)
    : Type 0 where
  later : List (List ℕ)
  split : ps ≡ r.0 ++ later
  left : r.1.buf ++ ys ≡ stream later
  good : r.1.bad ≡ b
  short : (length r.1.buf < length (stream later)) ⊎ (r.1.buf ≡ [])

drain-none : (fuel : ℕ) (f g : Framer) → next f ≡ (none, g) → drain (suc fuel) f ≡ ([], g)
unfolding drain
drain-none fuel f g e = ground (arith, e)

drain-some :
    (fuel : ℕ) (f g : Framer) (p : List ℕ)
    → next f ≡ (some p, g)
    → drain (suc fuel) f ≡ (p ∷ (drain fuel g).0, (drain fuel g).1)
unfolding drain
drain-some fuel f g p e = ground (arith, e)

drain-Drained :
    (fuel : ℕ) (b : Bool) (xs ys : List ℕ) (ps : List (List ℕ))
    → length xs < fuel
    → All Fits ps
    → xs ++ ys ≡ stream ps
    → Drained b xs ys ps (drain fuel (record { buf = xs; bad = b }))
drain-Drained zero b xs ys ps h f e = absurd (omega arith)
drain-Drained (suc fuel) b [] ys [] h f e =
    rw (drain-none fuel _ _ (next_waits (record { buf = []; bad = b }) (inl (omega arith))))
      (record { later = []; split = refl; left = e; good = refl; short = inr refl })
drain-Drained (suc fuel) b (x ∷ xs) ys [] h f e = cc
drain-Drained (suc fuel) b xs ys (p ∷ ps) h f e = elim (dec_lt (length xs) (length (frame p))) [
  | yes l ↦ rw (drain-none fuel _ _ (next_short b p xs ys (stream ps) f.0 e l)) (record {
    later = p ∷ ps;
    split = refl;
    left = e;
    good = refl;
    short = inl (
        omega (
          arith,
          length-append p (stream ps),
          ap length (append_assoc (header (length p)) p (stream ps)),
        ));
  })
  | no l ↦
      let (zs, q, r) = cut (frame p) (stream ps) xs ys e (omega arith) in
      let d =
        drain-Drained fuel b zs ys ps (omega (arith, ap length q, length-append p zs)) f.1 r in
      rw (q, drain-some fuel _ _ p (next_whole b p zs f.0))
        (record {
          later = d.later;
          split = ap (◌∷◌ p) d.split;
          left = d.left;
          good = d.good;
          short = d.short;
        })
]

-- The bytes of the chunks.
abbrev pub joined : List (List ℕ) → List ℕ
joined [] = []
joined (c ∷ cs) = c ++ joined cs

stream-nil : (ps : List (List ℕ)) → length (stream ps) ≡ 0 → ps ≡ []
stream-nil [] h = refl
stream-nil (p ∷ ps) h = absurd (omega arith)

abbrev drained : List ℕ → List ℕ → Bool → List (List ℕ) × Framer
drained buf c b = drain (suc (length (buf ++ c))) (record { buf = buf ++ c; bad = b })

same_bad : (f : Framer) (b : Bool) → f.bad ≡ b → record { buf = f.buf; bad = b } ≡ f
same_bad f b e = λ i. record { buf = f.buf; bad = sym e i }

All-later : (xs ys : List (List ℕ)) → All Fits (xs ++ ys) → All Fits ys
All-later [] ys h = h
All-later (x ∷ xs) ys h = All-later xs ys h.1

joins :
    (done : List (List ℕ)) (r : List (List ℕ) × Framer) (ps later : List (List ℕ)) (g : Framer)
    → r ≡ (later, g)
    → ps ≡ done ++ later
    → ◌≡◌ {A = List (List ℕ) × Framer} (done ++ r.0, r.1) (ps, g)
joins done r ps later g e s = (λ i. (done ++ (e i).0, (e i).1)) ∙ λ i. (sym s i, g)

receive-stream :
    (chunks ps : List (List ℕ)) (b : Bool) (buf : List ℕ)
    → All Fits ps
    → buf ++ joined chunks ≡ stream ps
    → (length buf < length (stream ps)) ⊎ (buf ≡ [])
    → receive (record { buf = buf; bad = b }) chunks ≡ (ps, record { buf = []; bad = b })
unfolding receive feed
receive-stream [] ps b buf f e s = λ i. (sym none_left i, record { buf = empty i; bad = b })
  where
    empty : buf ≡ []
    empty = elim s [ inl l ↦ absurd (omega (arith, ap length e, length-append buf [])) | inr q ↦ q ]

    none_left : ps ≡ []
    none_left = stream-nil ps (omega (arith, ap length e, length-append buf [], ap length empty))
receive-stream (c ∷ cs) ps b buf f e s =
    let d =
      drain-Drained (suc (length (buf ++ c))) b (buf ++ c) (joined cs) ps (omega arith) f
        (append_assoc buf c (joined cs) ∙ e) in
    let rest =
      receive-stream cs d.later b _
        (All-later (drained buf c b).0 d.later (subst (All Fits) d.split f)) d.left d.short in
    let rest' =
      ap (λ (g : Framer). receive g cs) (sym (same_bad (drained buf c b).1 b d.good)) ∙ rest in
    joins ((drained buf c b).0) _ ps d.later _ rest' d.split

-- `send_frame` refuses a payload over the limit, and writes the frame of any other.
send_frame_lem : (p : List ℕ) → ((Fits p) × (send_frame p ≡ some (frame p))) ⊎ (send_frame p ≡ none)
unfolding send_frame
send_frame_lem p = elim (dec_lt k_max_frame (length p)) [
  | yes l ↦ inr (ground arith)
  | no l ↦ inl (omega arith, ground arith)
]

send_all-stream :
    (ps : List (List ℕ)) (bytes : List ℕ)
    → send_all ps ≡ some bytes
    → All Fits ps × (bytes ≡ stream ps)
unfolding send_all
send_all-stream [] bytes e = (tt, cc)
send_all-stream (p ∷ ps) bytes e = elim (send_frame_lem p) [
  | inr n ↦ absurd (some-ne-none (rw (n, send_all) at e))
  | inl (h, q) ↦ elim (Option-cases (send_all ps)) [
    | inl n ↦ absurd (some-ne-none (rw (q, n, send_all) at e))
    | inr (rest, r) ↦
        let (fits, s) = send_all-stream ps rest r in
        let t : some (frame p ++ rest) ≡ some bytes = rw (q, r, send_all) at e in
        let u : bytes ≡ frame p ++ rest = cc t in ((h, fits), u ∙ ap (◌++◌ (frame p)) s)
  ]
]
  where
    some-ne-none : none ≡ some bytes → ⊥
    some-ne-none z = cc

-- However the bytes that `send_frame` writes for a run of payloads are cut into chunks, the framer
-- returns these payloads in order, is not marked bad, and keeps no byte.
pub receive_sent :
    (ps chunks : List (List ℕ))
    → send_all ps ≡ some (joined chunks)
    → receive (record { buf = []; bad = false }) chunks ≡ (ps, record { buf = []; bad = false })
receive_sent ps chunks e =
    let (f, q) = send_all-stream ps (joined chunks) e in
    receive-stream chunks ps false [] f q (inr refl)

-- A header that states more than the limit marks the framer bad, and `next` returns no frame and
-- takes no byte.
pub next_oversize :
    (f : Framer)
    → 4 ≤ length f.buf
    → k_max_frame < frame_len f.buf
    → next f ≡ (none, record f { bad = true })
unfolding next
next_oversize f h k = ground arith
