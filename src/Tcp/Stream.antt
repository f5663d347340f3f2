-- ===== src/Tcp/Stream.antt =====
-- The order of the bytes that src/tcp.cpp sends.
use scholar_vpn.Prelude.{
  ℕ, ◌+◌, ◌≡◌, ◌⊎◌, inl, inr, refl, sym, ap, ◌∙◌, Bool, true, false, List, [], ◌∷◌, ◌++◌,
  append-nil, append_assoc, ltb, ◌==◌, if◌then◌else◌, length, take, drop, arith, by_branch,
  take-drop, drop_add, drop_all,
}
use scholar_vpn.Tcp.{Tx, SendResult, took, again, late, dead}
use scholar_vpn.Tcp.Send.{
  k_max_tx_pending, waiting, is_done, emptied, wrote, flush_tx_pending, put_off, write, raw_send,
  send_frames,
}

-- The call asks for a new connection, or all bytes went out or wait behind those before.
abbrev Streams : Tx → List ℕ → Tx → Type 0
Streams t bytes t' =
    (t'.need_reconnect ≡ true)
    ⊎ ((t'.need_reconnect ≡ t.need_reconnect)
        × (t'.wire ++ waiting t' ≡ (t.wire ++ waiting t) ++ bytes))

-- The bytes of all calls.
abbrev pub frames_of : List (List ℕ × List SendResult) → List ℕ
frames_of [] = []
frames_of ((bytes, rs) ∷ calls) = bytes ++ frames_of calls

abbrev Flows : Tx → Tx → Type 0
Flows t t' =
    (t'.need_reconnect ≡ true)
    ⊎ ((t'.need_reconnect ≡ t.need_reconnect) × (t'.wire ++ waiting t' ≡ t.wire ++ waiting t))

Flows-trans : (t u v : Tx) → Flows t u → Flows u v → Flows t v
Flows-trans t u v f (inl h) = inl h
Flows-trans t u v (inl g) (inr h) = inl (h.0 ∙ g)
Flows-trans t u v (inr g) (inr h) = inr (h.0 ∙ g.0, h.1 ∙ g.1)

-- Nothing waits where the loop is over.
none_waits : (t : Tx) → is_done t ≡ true → waiting t ≡ []
none_waits t h = drop_all t.tx_pending_off t.tx_pending (ground (arith, h))

emptied-Flows : (t : Tx) → is_done t ≡ true → Flows t (emptied t).0
emptied-Flows t h = inr (refl, ap (◌++◌ t.wire) (sym (none_waits t h)))

wrote-Flows : (t : Tx) (n : ℕ) → Flows t (wrote t n)
wrote-Flows t n = inr (
  refl,
  ap (◌++◌ (t.wire ++ take n (waiting t))) (drop_add t.tx_pending_off n t.tx_pending)
      ∙ append_assoc t.wire (take n (waiting t)) (drop n (waiting t))
      ∙ ap (◌++◌ t.wire) (take-drop n (waiting t)),
)

abbrev Flushes : Tx → Tx × Bool → Type 0
Flushes t r = Flows t r.0

flush-Flows : (t : Tx) (rs : List SendResult) → Flows t (flush_tx_pending t rs).0
unfolding flush_tx_pending
flush-Flows t [] = by_branch (Flushes t) (is_done t) _ _ (emptied-Flows t) (λ _. inr (refl, refl))
flush-Flows t (took n ∷ rs) = by_branch (Flushes t) (is_done t) _ _ (emptied-Flows t) λ _.
    by_branch (Flushes t) (n == 0) _ _ (λ _. inl refl)
      (λ _.
        Flows-trans t (wrote t n) (flush_tx_pending (wrote t n) rs).0 (wrote-Flows t n)
          (flush-Flows (wrote t n) rs))
flush-Flows t (again ∷ rs) =
    by_branch (Flushes t) (is_done t) _ _ (emptied-Flows t) (λ _. flush-Flows t rs)
flush-Flows t (late ∷ rs) =
    by_branch (Flushes t) (is_done t) _ _ (emptied-Flows t) (λ _. inr (refl, refl))
flush-Flows t (dead ∷ rs) = by_branch (Flushes t) (is_done t) _ _ (emptied-Flows t) (λ _. inl refl)

put_off-Streams : (t : Tx) (bytes : List ℕ) → is_done t ≡ true → Streams t bytes (put_off t bytes).0
put_off-Streams t bytes h = inr (
  refl,
  sym (
      ap (λ xs. (t.wire ++ xs) ++ bytes) (none_waits t h)
      ∙ ap (λ xs. xs ++ bytes) (append-nil t.wire)),
)

-- With the bytes that are left to write, where nothing waits.
write-Streams :
    (t : Tx) (bytes : List ℕ) (rs : List SendResult)
    → is_done t ≡ true
    → Streams t bytes (write t bytes rs).0
unfolding write
write-Streams t [] rs h = inr (refl, sym (append-nil (t.wire ++ waiting t)))
write-Streams t (b ∷ bs) [] h = put_off-Streams t (b ∷ bs) h
write-Streams t (b ∷ bs) (took n ∷ rs) h =
    by_branch (λ (r : Tx × Bool). Streams t (b ∷ bs) r.0) (n == 0) _ _ (λ _. inl refl)
      λ _. elim (write-Streams u (drop n (b ∷ bs)) rs h) [
        | inl g ↦ inl g
        | inr g ↦ inr (g.0, g.1 ∙ joins)
      ]
  where
    u : Tx
    u = record t { wire = t.wire ++ take n (b ∷ bs) }

    joins :
        ((t.wire ++ take n (b ∷ bs)) ++ waiting t) ++ drop n (b ∷ bs)
        ≡ (t.wire ++ waiting t) ++ (b ∷ bs)
    joins =
        let e = none_waits t h in
        ap (λ xs. ((t.wire ++ take n (b ∷ bs)) ++ xs) ++ drop n (b ∷ bs)) e
        ∙ ap (λ xs. xs ++ drop n (b ∷ bs)) (append-nil (t.wire ++ take n (b ∷ bs)))
        ∙ append_assoc t.wire (take n (b ∷ bs)) (drop n (b ∷ bs))
        ∙ ap (◌++◌ t.wire) (take-drop n (b ∷ bs))
        ∙ sym (ap (λ xs. xs ++ (b ∷ bs)) (append-nil t.wire))
        ∙ sym (ap (λ xs. (t.wire ++ xs) ++ (b ∷ bs)) e)
write-Streams t (b ∷ bs) (again ∷ rs) h = write-Streams t (b ∷ bs) rs h
write-Streams t (b ∷ bs) (late ∷ rs) h = put_off-Streams t (b ∷ bs) h
write-Streams t (b ∷ bs) (dead ∷ rs) h = inl refl

raw_send-Streams :
    (t : Tx) (bytes : List ℕ) (rs : List SendResult) → Streams t bytes (raw_send t bytes rs).0
unfolding raw_send
raw_send-Streams t bytes rs =
    by_branch Sends (ltb t.tx_pending_off (length t.tx_pending)) _ _
      (λ _.
        by_branch Sends (ltb k_max_tx_pending (length t.tx_pending + length bytes)) _ _
          (λ _. inl refl)
          (λ _. elim (flush-Flows u rs) [
            | inl g ↦ inl g
            | inr g ↦ inr (g.0, g.1 ∙ sym (append_assoc t.wire (waiting t) bytes))
          ]))
      (λ e. write-Streams t bytes rs (is_over (ltb t.tx_pending_off (length t.tx_pending)) e))
  where
    Sends : Tx × Bool → Type 0
    Sends r = Streams t bytes r.0

    u : Tx
    u = record t { tx_pending = waiting t ++ bytes; tx_pending_off = 0 }

    is_over : (b : Bool) → b ≡ false → (if b then false else true) ≡ true
    is_over b e = rw (e) refl

-- A call never takes the wish for a new connection back.
asks :
    (t t' : Tx) (bytes : List ℕ)
    → Streams t bytes t'
    → t.need_reconnect ≡ true
    → t'.need_reconnect ≡ true
asks t t' bytes (inl h) e = h
asks t t' bytes (inr h) e = h.0 ∙ e

still_asks :
    (t : Tx) (calls : List (List ℕ × List SendResult))
    → t.need_reconnect ≡ true
    → (send_frames t calls).need_reconnect ≡ true
unfolding send_frames
still_asks t [] e = e
still_asks t ((bytes, rs) ∷ calls) e =
    still_asks (raw_send t bytes rs).0 calls
      (asks t (raw_send t bytes rs).0 bytes (raw_send-Streams t bytes rs) e)

-- However the socket takes the bytes, in parts or not at all for a time: as long as no call asks for a
-- new connection, the bytes that it took and those that wait are together the bytes that went out or
-- waited before and then the frames of all calls, each whole and in the order of the calls.
pub send_frames-stream :
    (t : Tx) (calls : List (List ℕ × List SendResult))
    → (send_frames t calls).need_reconnect ≡ false
    → (send_frames t calls).wire ++ waiting (send_frames t calls)
      ≡ (t.wire ++ waiting t) ++ frames_of calls
unfolding send_frames
send_frames-stream t [] e = sym (append-nil (t.wire ++ waiting t))
send_frames-stream t ((bytes, rs) ∷ calls) e = elim (raw_send-Streams t bytes rs) [
  | inl h ↦ let x = still_asks (raw_send t bytes rs).0 calls h in absurd (cc)
  | inr h ↦
      send_frames-stream (raw_send t bytes rs).0 calls e
      ∙ ap (λ xs. xs ++ frames_of calls) h.1
      ∙ append_assoc (t.wire ++ waiting t) bytes (frames_of calls)
]
