-- ===== src/Client/Wait.antt =====
-- How long the two waits of `send_work` of src/UDP.cpp go on.
use scholar_vpn.Prelude.{ℕ, ◌+◌, ◌-◌, ◌≤◌, ◌≡◌, refl, Bool, true, false, List, [], ◌∷◌, ltb, arith}
use scholar_vpn.Reconnect.{k_handshake_wait}
use scholar_vpn.Client.{Client, Crypto, Turn}
use scholar_vpn.Client.Work.{
  k_auth_timeout, Stage, hello_wait, identity_wait, flowing, ended, start_work, work, Event, turn,
  frame, from_tun, stopped, step, run,
}
use scholar_vpn.Client.Paced.{Ticking, clock, Paced, work-Paced}

run-Paced :
    (k : Crypto) (begin now : ℕ) (r : Client × Stage) (es : List Event)
    → Ticking 40 now es
    → Paced begin now r.1
    → Paced begin (clock now es) (run k r es).1
unfolding run step
run-Paced k begin now r [] h p = p
run-Paced k begin now (c, s) (turn t ∷ es) h p =
    run-Paced k begin t.now_ms (work k c t s) es h.3 (work-Paced begin now t h.0 k c s h.1 h.2 p)
run-Paced k begin now (c, s) (frame t hdr payload ∷ es) h p = run-Paced k begin now (_, s) es h p
run-Paced k begin now (c, s) (from_tun pkt ∷ es) h p = run-Paced k begin now (_, s) es h p
run-Paced k begin now (c, s) (stopped ∷ es) h p = run-Paced k begin now (_, ended) es h tt

started :
    (k : Crypto) (c : Client) (t : Turn)
    → t.now_ms ≤ t.sent_ms
    → t.sent_ms ≤ t.now_ms + 40
    → Paced t.now_ms t.now_ms (start_work c t).1
unfolding start_work
started k c t rises brief =
    (refl, record { most = omega arith; slow = omega (arith, brief); near = omega (arith, rises) })

abbrev pub is_waiting : Stage → Bool
is_waiting (hello_wait start last retries) = true
is_waiting (identity_wait start last retries msg) = true
is_waiting (flowing heart) = false
is_waiting ended = false

-- The hand-shake ends before the reconnection stops to wait for it, whatever the server sends or keeps
-- back: where each round begins at most 40 ms behind the one before, twice the sleep of a round, and
-- its sends take 40 ms at most, no wait goes on in a round that begins 12 s less 80 ms after the start.
pub run-ends :
    (k : Crypto) (c : Client) (t : Turn) (es : List Event)
    → Ticking 40 t.now_ms (turn t ∷ es)
    → t.now_ms + k_handshake_wait ≤ clock t.now_ms es + 80
    → is_waiting (run k (start_work c t) es).1 ≡ false
run-ends k c t es h late =
    over (run k (start_work c t) es).1
      (run-Paced k t.now_ms t.now_ms (start_work c t) es h.3 (started k c t h.1 h.2))
  where
    over : (s : Stage) → Paced t.now_ms (clock t.now_ms es) s → is_waiting s ≡ false
    over (hello_wait start last retries) (e, w) =
        absurd (ground (arith, e, late, w.most, w.slow, w.near))
    over (identity_wait start last retries msg) (e, w) =
        absurd (ground (arith, e, late, w.most, w.slow, w.near))
    over (flowing heart) p = refl
    over ended p = refl

abbrev pub started_at : Stage → ℕ → ℕ
started_at (hello_wait start last retries) now = start
started_at (identity_wait start last retries msg) now = start
started_at (flowing heart) now = now
started_at ended now = now

-- Where each round begins at most 40 ms behind the one before, and its sends take 40 ms at most, the 8 s of `kAuthTimeout` are never over
-- in a round of a wait: the ten retries are used up before.
pub run-never_times_out :
    (k : Crypto) (c : Client) (t : Turn) (es : List Event) (now : ℕ)
    → Ticking 40 t.now_ms (turn t ∷ es)
    → now ≤ clock t.now_ms es + 40
    → let s = (run k (start_work c t) es).1 in ltb k_auth_timeout (now - started_at s now) ≡ false
run-never_times_out k c t es now h gap =
    within (run k (start_work c t) es).1
      (run-Paced k t.now_ms t.now_ms (start_work c t) es h.3 (started k c t h.1 h.2))
  where
    within :
        (s : Stage)
        → Paced t.now_ms (clock t.now_ms es) s
        → ltb k_auth_timeout (now - started_at s now) ≡ false
    within (hello_wait start last retries) (e, w) = ground (arith, gap, w.most, w.slow, w.near)
    within (identity_wait start last retries msg) (e, w) =
        ground (arith, gap, w.most, w.slow, w.near)
    within (flowing heart) p = ground arith
    within ended p = ground arith
