-- ===== src/Tcp/Written.antt =====
-- The order of the bytes that `flush_conn_tx` of server/TCP/tcpserver.cpp writes.
use scholar_vpn.Prelude.{
  ℕ, ◌≤◌, ◌≡◌, refl, sym, ap, ◌∙◌, Bool, true, false, not, ◌&&◌, List, [], ◌∷◌, ◌++◌, append-nil,
  append_assoc, leb, ◌==◌, length, take, drop, length-append, take-drop, drop_add, drop_all,
  drop-append_le, arith, by_branch,
}
use scholar_vpn.Tcp.{SendResult, took, again, late, dead}
use scholar_vpn.Tcp.Output.{
  Out, rest_of, move_frames, Stop, finished, blocked, failed, all_out, takes, send_out, shrink,
  same_bool, subscribe, flush_conn_tx,
}

abbrev pub bytes_of : List (List ℕ) → List ℕ
bytes_of [] = []
bytes_of (f ∷ fs) = f ++ bytes_of fs

-- All bytes go out or wait in order, and epoll is asked to tell when some wait, and only then.
pub record Written (c : Out) (frames : List (List ℕ)) (r : Out) : Type 0 where
  pub order : r.wire ++ rest_of r ≡ (c.wire ++ rest_of c) ++ bytes_of frames
  pub fits : r.tx_off ≤ length r.tx_buf
  pub told : r.want_epollout ≡ not (all_out r)

move_frames-order :
    (c : Out) (frames : List (List ℕ))
    → c.tx_off ≤ length c.tx_buf
    → (move_frames c frames).wire ++ rest_of (move_frames c frames)
      ≡ (c.wire ++ rest_of c) ++ bytes_of frames
unfolding move_frames
move_frames-order c [] h = sym (append-nil (c.wire ++ rest_of c))
move_frames-order c (f ∷ fs) h =
    move_frames-order (record c { tx_buf = c.tx_buf ++ f }) fs
      (omega (arith, h, length-append c.tx_buf f))
    ∙ ap (λ xs. (c.wire ++ xs) ++ bytes_of fs) (drop-append_le c.tx_off c.tx_buf f h)
    ∙ ap (λ xs. xs ++ bytes_of fs) (sym (append_assoc c.wire (rest_of c) f))
    ∙ append_assoc (c.wire ++ rest_of c) f (bytes_of fs)

-- The loop, and what its end at the last byte means.
record Sends (c : Out) (r : Out × Stop) : Type 0 where
  pub order : r.0.wire ++ rest_of r.0 ≡ c.wire ++ rest_of c
  pub all_gone : r.1 ≡ finished → all_out r.0 ≡ true

ended : (c : Out) (s : Stop) → (s ≡ finished → all_out c ≡ true) → Sends c (c, s)
ended c s h = record { order = refl; all_gone = h }

send_out-Sends : (c : Out) (rs : List SendResult) → Sends c (send_out c rs)
unfolding send_out
send_out-Sends c [] =
    by_branch (Sends c) (all_out c) _ _ (λ e. ended c finished (λ _. e))
      (λ _. ended c blocked (λ x. absurd (cc)))
send_out-Sends c (took n ∷ rs) =
    by_branch (Sends c) (all_out c) _ _ (λ e. ended c finished (λ _. e))
      λ _.
        by_branch (Sends c) (n == 0) _ _ (λ _. ended c failed (λ x. absurd (cc)))
          λ _.
            let s = send_out-Sends (takes c n) rs in
            record {
              order =
                  s.order
                  ∙ ap (◌++◌ (c.wire ++ take n (rest_of c))) (drop_add c.tx_off n c.tx_buf)
                  ∙ append_assoc c.wire (take n (rest_of c)) (drop n (rest_of c))
                  ∙ ap (◌++◌ c.wire) (take-drop n (rest_of c));
              all_gone = s.all_gone;
            }
send_out-Sends c (again ∷ rs) =
    by_branch (Sends c) (all_out c) _ _ (λ e. ended c finished (λ _. e)) (λ _. send_out-Sends c rs)
send_out-Sends c (late ∷ rs) =
    by_branch (Sends c) (all_out c) _ _ (λ e. ended c finished (λ _. e))
      (λ _. ended c blocked (λ x. absurd (cc)))
send_out-Sends c (dead ∷ rs) =
    by_branch (Sends c) (all_out c) _ _ (λ e. ended c finished (λ _. e))
      (λ _. ended c failed (λ x. absurd (cc)))

record Shrunk (c r : Out) : Type 0 where
  pub order : r.wire ++ rest_of r ≡ c.wire ++ rest_of c
  pub fits : r.tx_off ≤ length r.tx_buf
  pub gone : all_out c ≡ true → all_out r ≡ true

shrink-Shrunk : (c : Out) → Shrunk c (shrink c)
unfolding shrink
shrink-Shrunk c =
    by_branch (Shrunk c) (all_out c) _ _
      (λ e. record {
        order =
            ap (◌++◌ c.wire)
              (sym (drop_all c.tx_off c.tx_buf (below (length c.tx_buf) c.tx_off e)));
        fits = omega arith;
        gone = λ _. refl;
      })
      λ e.
        by_branch (Shrunk c) (leb 4096 c.tx_off) _ _
          (λ _. record { order = refl; fits = omega arith; gone = λ x. absurd (cc) })
          (λ _. record { order = refl; fits = above (length c.tx_buf) c.tx_off e; gone = λ x. x })
  where
    below : (a b : ℕ) → leb a b ≡ true → a ≤ b
    below a b e = ground (arith, e)

    above : (a b : ℕ) → leb a b ≡ false → b ≤ a
    above a b e = ground (arith, e)

same_bool-eq : (a b : Bool) → same_bool a b ≡ true → b ≡ a
same_bool-eq true true e = refl
same_bool-eq true false e = absurd (cc)
same_bool-eq false true e = absurd (cc)
same_bool-eq false false e = refl

subscribe-Written :
    (c : Out) (frames : List (List ℕ)) (r : Out) (need_out works : Bool)
    → r.wire ++ rest_of r ≡ (c.wire ++ rest_of c) ++ bytes_of frames
    → r.tx_off ≤ length r.tx_buf
    → need_out ≡ not (all_out r)
    → (subscribe r need_out works).1 ≡ true
    → Written c frames (subscribe r need_out works).0
unfolding subscribe
subscribe-Written c frames r need_out works a b d =
    by_branch Good (same_bool need_out r.want_epollout) _ _
      (λ e _. record { order = a; fits = b; told = same_bool-eq need_out r.want_epollout e ∙ d })
      λ _.
        by_branch Good works _ _ (λ _ _. record { order = a; fits = b; told = d })
          (λ _ x. absurd (cc))
  where
    Good : Out × Bool → Type 0
    Good x = x.1 ≡ true → Written c frames x.0

-- A call of `flush_conn_tx` that does not give the connection up, however the socket takes the bytes:
-- what the socket took and what waits are together what was before and then the frames of the session,
-- whole and in order, and epoll is asked to tell when the socket takes more if and only if bytes wait.
pub flush_conn_tx-Written :
    (c : Out) (frames : List (List ℕ)) (rs : List SendResult) (works : Bool)
    → c.tx_off ≤ length c.tx_buf
    → (flush_conn_tx c frames rs works).1 ≡ true
    → Written c frames (flush_conn_tx c frames rs works).0
unfolding flush_conn_tx
flush_conn_tx-Written c frames rs works h =
    stops r.1 (send_out-Sends (move_frames c frames) rs).all_gone
  where
    r : Out × Stop
    r = send_out (move_frames c frames) rs

    s : Shrunk r.0 (shrink r.0)
    s = shrink-Shrunk r.0

    order : (shrink r.0).wire ++ rest_of (shrink r.0) ≡ (c.wire ++ rest_of c) ++ bytes_of frames
    order =
        s.order ∙ (send_out-Sends (move_frames c frames) rs).order ∙ move_frames-order c frames h

    with_and : (b : Bool) → (not b && true) ≡ not b
    with_and true = refl
    with_and false = refl

    without_and : (b : Bool) → b ≡ true → (not b && false) ≡ not b
    without_and true e = refl
    without_and false e = absurd (cc)

    Good : Out × Bool → Type 0
    Good x = x.1 ≡ true → Written c frames x.0

    stops :
        (x : Stop)
        → (x ≡ finished → all_out r.0 ≡ true)
        → Good (elim x [
          | failed ↦ (r.0, false)
          | finished ↦ subscribe (shrink r.0) (not (all_out (shrink r.0)) && false) works
          | blocked ↦ subscribe (shrink r.0) (not (all_out (shrink r.0)) && true) works
        ])
    stops failed g = λ x. absurd (cc)
    stops finished g =
        subscribe-Written c frames (shrink r.0) _ works order s.fits
          (without_and (all_out (shrink r.0)) (s.gone (g refl)))
    stops blocked g =
        subscribe-Written c frames (shrink r.0) _ works order s.fits
          (with_and (all_out (shrink r.0)))
