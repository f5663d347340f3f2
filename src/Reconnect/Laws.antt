-- ===== src/Reconnect/Laws.antt =====
-- src/reconnect_manager.cpp: how long the worker waits, when it gives up, and what it reports last.
use Prim.Native.Nat.{min}
use scholar_vpn.Prelude.{
  ℕ, zero, suc, ◌+◌, ◌*◌, ◌^◌, ◌<◌, ◌≤◌, ◌≡◌, refl, map, length, ◌++◌, subst, ap, sym, ◌∙◌, true,
  false, List, [], ◌∷◌, Option, none, some, leb, if◌then◌else◌, arith, All, Bool-cases, inl, inr,
  ◌⊎◌,
}
use native.Mathlib.Decide.{dec_lt}
use scholar_vpn.Reconnect.{
  ConnState, connecting, reconnecting, error, Outcome, invalid, failed, halted, halted_before, lost,
  stopped_later, threw, Worker, start, set_state, finish, drop_token, back_off, attempt, round, run,
  count_failure, k_min_backoff, k_max_backoff, k_max_connect_retries,
}

-- The wait after `n` failures in a row.
abbrev pub wait_after : ℕ → ℕ
wait_after n = k_min_backoff * 2 ^ n

-- A worker that goes on has at most four failures in a row behind it, and its next wait doubles
-- with each of them; one that gave up has had five. Every wait so far is one of those.
abbrev Waits : List ℕ → Type 0
Waits = All (λ s. (k_min_backoff ≤ s) × (s ≤ wait_after 3))

record IsPaced (w : Worker) : Type 0 where
  pub going :
      (w.ended ≡ true)
      ⊎ ((w.retry_count < k_max_connect_retries)
          × (w.backoff ≡ min (wait_after w.retry_count) k_max_backoff)
          × (w.gave_up ≡ false))
  pub gone : (w.gave_up ≡ false) ⊎ ((w.retry_count ≡ k_max_connect_retries) × (w.ended ≡ true))
  pub waits : Waits w.sleeps

start-IsPaced : (token : List ℕ) → IsPaced (start token)
unfolding start
start-IsPaced token = record { going = inr (omega arith, refl, refl); gone = inl refl; waits = tt }

-- The waits, by the number of failures before the one that is counted.
wait_table :
    (n b : ℕ)
    → n < 4
    → b ≡ min (wait_after n) k_max_backoff
    → (k_min_backoff ≤ b)
      × (b ≤ wait_after 3)
      × (min (b * 2) k_max_backoff ≡ min (wait_after (suc n)) k_max_backoff)
wait_table zero b h e = omega arith
wait_table (suc zero) b h e = omega arith
wait_table (suc (suc zero)) b h e = omega arith
wait_table (suc (suc (suc zero))) b h e = omega arith
wait_table (suc (suc (suc (suc n)))) b h e = absurd (omega arith)

back_off-IsPaced :
    (w : Worker) (n : ℕ)
    → w.retry_count ≡ suc n
    → n < k_max_connect_retries
    → w.backoff ≡ min (wait_after n) k_max_backoff
    → w.gave_up ≡ false
    → Waits w.sleeps
    → IsPaced (back_off w)
unfolding back_off finish
back_off-IsPaced w n c h b g a = elim (Bool-cases (leb k_max_connect_retries w.retry_count)) [
  | inl e ↦
      rw (e, back_off) (record { going = inl refl; gone = inr (ground arith, refl); waits = a })
  | inr e ↦
      let (lo, hi, next) = wait_table n w.backoff (ground arith) b in
      rw (e, back_off)
        (record {
          going =
              inr
                (ground arith, next ∙ ap (λ (t : ℕ). min (wait_after t) k_max_backoff) (sym c), g);
          gone = inl g;
          waits = ((lo, hi), a);
        })
]

drop_token_keeps :
    (w : Worker) (reason : Option ℕ)
    → ((drop_token w reason).retry_count ≡ w.retry_count)
      × ((drop_token w reason).backoff ≡ w.backoff)
      × ((drop_token w reason).gave_up ≡ w.gave_up)
      × ((drop_token w reason).sleeps ≡ w.sleeps)
unfolding drop_token
drop_token_keeps w none = (refl, refl, refl, refl)
drop_token_keeps w (some reason) = ground arith

-- What the invariant says of a worker that goes on.
active :
    (w : Worker)
    → w.ended ≡ false
    → IsPaced w
    → (w.retry_count < k_max_connect_retries)
      × (w.backoff ≡ min (wait_after w.retry_count) k_max_backoff)
      × (w.gave_up ≡ false)
active w e v = elim v.going [ inl z ↦ cc | inr a ↦ a ]

-- The worker when the state of the attempt has been reported.
abbrev announced : Worker → Worker
announced w = record (set_state w (if w.first_attempt then connecting else reconnecting)) {
  first_attempt = false;
}

failed-IsPaced :
    (w : Worker) (reason : Option ℕ)
    → w.ended ≡ false
    → IsPaced w
    → IsPaced (back_off (count_failure (drop_token (announced w) reason)))
failed-IsPaced w reason e v =
    let (few, next, g) = active w e v in
    let (a, b, c, d) = drop_token_keeps (announced w) reason in
    back_off-IsPaced (count_failure (drop_token (announced w) reason)) w.retry_count
      (omega (arith, a)) few (b ∙ next) (c ∙ g) (subst Waits (sym d) v.waits)

round-IsPaced : (w : Worker) (o : Outcome) → w.ended ≡ false → IsPaced w → IsPaced (round w o)
unfolding round attempt finish
round-IsPaced w invalid e v = record {
  going = inl refl;
  gone = inl (active w e v).2;
  waits = v.waits;
}
round-IsPaced w (failed reason) e v = failed-IsPaced w reason e v
round-IsPaced w (halted false) e v = record {
  going = inl refl;
  gone = inl (active w e v).2;
  waits = v.waits;
}
round-IsPaced w (halted true) e v = record {
  going = inl refl;
  gone = inl (active w e v).2;
  waits = v.waits;
}
round-IsPaced w halted_before e v = record {
  going = inl refl;
  gone = inl (active w e v).2;
  waits = v.waits;
}
round-IsPaced w lost e v = record {
  going = inr (omega arith, refl, (active w e v).2);
  gone = inl (active w e v).2;
  waits = v.waits;
}
round-IsPaced w stopped_later e v = record {
  going = inl refl;
  gone = inl (active w e v).2;
  waits = v.waits;
}
round-IsPaced w threw e v = record {
  going = inl refl;
  gone = inl (active w e v).2;
  waits = v.waits;
}

run-IsPaced : (w : Worker) (os : List Outcome) → IsPaced w → IsPaced (run w os)
unfolding run
run-IsPaced w [] v = v
run-IsPaced w (o ∷ os) v = elim (Bool-cases w.ended) [
  | inl e ↦ rw (e, run) v
  | inr e ↦ rw (e, run) (run-IsPaced (round w o) os (round-IsPaced w o e v))
]

-- Whatever the attempts meet, each wait between two of them lasts half a second at least and four
-- seconds at most.
pub run-sleeps :
    (token : List ℕ) (os : List Outcome)
    → All (λ s. (500 ≤ s) × (s ≤ 4000)) (run (start token) os).sleeps
run-sleeps token os = (run-IsPaced (start token) os (start-IsPaced token)).waits

-- The worker gives up only at its fifth failure in a row, and it has then ended.
pub run-gave_up :
    (token : List ℕ) (os : List Outcome)
    → (run (start token) os).gave_up ≡ true
    → ((run (start token) os).retry_count ≡ 5) × ((run (start token) os).ended ≡ true)
run-gave_up token os h = elim (run-IsPaced (start token) os (start-IsPaced token)).gone [
  | inl z ↦ cc
  | inr z ↦ z
]

run_going :
    (w : Worker) (o : Outcome) (os : List Outcome)
    → w.ended ≡ false
    → run w (o ∷ os) ≡ run (round w o) os
unfolding run
run_going w o os e = ground arith

run_ended : (w : Worker) (os : List Outcome) → w.ended ≡ true → run w os ≡ w
unfolding run
run_ended w [] e = refl
run_ended w (o ∷ os) e = ground arith

drop_token-ended : (w : Worker) (reason : Option ℕ) → (drop_token w reason).ended ≡ w.ended
unfolding drop_token
drop_token-ended w none = refl
drop_token-ended w (some reason) = ground arith

-- One failure more, and the worker that gave up.
abbrev Fails : ℕ → Worker → Type 0
Fails n w = (w.ended ≡ false) × (w.retry_count ≡ n)

abbrev GaveUp : Worker → Type 0
GaveUp w =
    (w.gave_up ≡ true)
    × (w.ended ≡ true)
    × ((states : List ConnState) × (w.states ≡ error ∷ states))

back_off-Fails :
    (w : Worker) → w.ended ≡ false → w.retry_count < 5 → Fails w.retry_count (back_off w)
unfolding back_off finish
back_off-Fails w e h = ground arith

back_off-GaveUp : (w : Worker) → w.retry_count ≡ 5 → GaveUp (back_off w)
unfolding back_off finish
back_off-GaveUp w h =
    let e : leb k_max_connect_retries w.retry_count ≡ true = ground arith in
    rw (e, back_off) (refl, refl, (error ∷ w.states, refl))

fail-Fails :
    (w : Worker) (r : Option ℕ) (n : ℕ) → Fails n w → n < 4 → Fails (suc n) (round w (failed r))
unfolding round attempt
fail-Fails w r n h k =
    let (a, b, c, d) = drop_token_keeps (announced w) r in
    let x =
      back_off-Fails (count_failure (drop_token (announced w) r))
        (drop_token-ended (announced w) r ∙ h.0) (omega (arith, a)) in
    (x.0, omega (arith, a, x.1))

fail-GaveUp : (w : Worker) (r : Option ℕ) → Fails 4 w → GaveUp (round w (failed r))
unfolding round attempt
fail-GaveUp w r h =
    let (a, b, c, d) = drop_token_keeps (announced w) r in
    back_off-GaveUp (count_failure (drop_token (announced w) r)) (omega (arith, a))

run_failures :
    (rs : List (Option ℕ)) (w : Worker) (n : ℕ) (os : List Outcome)
    → Fails n w
    → n + length rs ≡ 5
    → n < 5
    → GaveUp (run w (map failed rs ++ os))
run_failures [] w n os h k l = absurd (omega arith)
run_failures (r ∷ rs) w n os h k l = elim (dec_lt n 4) [
  | yes p ↦ rw (run_going w (failed r) (map failed rs ++ os) h.0) (
      run_failures rs (round w (failed r)) (suc n) os (fail-Fails w r n h p) (omega arith)
        (omega arith))
  | no p ↦
      let four : n ≡ 4 = omega arith in
      let g = fail-GaveUp w r (subst (λ t. Fails t w) four h) in
      rw
        (
          run_going w (failed r) (map failed rs ++ os) h.0,
          run_ended (round w (failed r)) (map failed rs ++ os) g.1,
        )
        g
]

-- Five failures in a row, for whatever reasons, end a worker that runs and has none behind it: it
-- gives up, and the state that it reports last is the error.
pub five_failures :
    (w : Worker) (rs : List (Option ℕ)) (os : List Outcome)
    → w.ended ≡ false
    → w.retry_count ≡ 0
    → length rs ≡ 5
    → let w' = run w (map failed rs ++ os) in
      (w'.gave_up ≡ true)
      × (w'.ended ≡ true)
      × ((states : List ConnState) × (w'.states ≡ error ∷ states))
five_failures w rs os e z l = run_failures rs w 0 os (e, z) (omega arith) (omega arith)
