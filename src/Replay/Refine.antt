-- ===== src/Replay/Refine.antt =====
-- src/replay_window.h: the bitmap and the list of accepted numbers.
use Prim.Native.Nat.{max}
use scholar_vpn.Prelude.{
  contains_here, ℕ, zero, suc, ◌+◌, ◌-◌, ◌*◌, ◌%◌, ◌^◌, ◌<◌, ◌≤◌, ◌≡◌, refl, ap₂, Bool, Distinct,
  true, false, List, [], ◌∷◌, arith, ltb, leb, ◌==◌, ==_iff, if◌then◌else◌, contains, Bool-cases,
  inl, inr, All,
}
use scholar_vpn.Prelude.Bits.{test_bit, or_bit, test_bit-mod, test_bit-shl, test_bit-or_bit}
use native.Mathlib.Decide.{dec_lt, dec_le}
use scholar_vpn.Replay.{ReplayWindow, fresh, accept, slide, k_window, k_none}
use scholar_vpn.Replay.History.{newest, admits, verdicts, admitted, passed, contains_above}

-- Bit `age` is set exactly if the number `age` below the newest one was accepted.
abbrev pub Tracks : List ℕ → ℕ → Type 0
Tracks seen window =
    (age : ℕ)
    → age < k_window
    → age ≤ newest seen
    → test_bit window age ≡ contains seen (newest seen - age)

pub data Represents : List ℕ → ReplayWindow → Type 0 where
  blank : (w : ReplayWindow) → w.highest ≡ k_none → Represents [] w
  tracked :
      (seen : List ℕ) (w : ReplayWindow)
      → w.highest ≡ newest seen
      → newest seen < 2 ^ 32
      → Tracks seen w.window
      → Represents seen w

test_bit-zero : (k : ℕ) → test_bit 0 k ≡ false
unfolding test_bit
test_bit-zero zero = refl
test_bit-zero (suc k) = test_bit-zero k

test_bit-one : (age : ℕ) → test_bit 1 age ≡ (age == 0)
unfolding test_bit
test_bit-one zero = refl
test_bit-one (suc age) = ground (arith, test_bit-zero age)

-- The bits of the bitmap after a slide.
test_bit-slide :
    (window shift age : ℕ)
    → 0 < shift
    → age < k_window
    → test_bit (slide window shift) age
      ≡ (if age == 0 then true else if ltb age shift then false else test_bit window (age - shift))
unfolding slide
test_bit-slide window shift age p h = elim (Bool-cases (leb k_window shift)) [
  | inl e ↦ rw e (ground (arith, test_bit-one age))
  | inr e ↦ rw e (
      ground (
        arith,
        test_bit-or_bit (window * 2 ^ shift % 2 ^ 64) 0 age,
        test_bit-mod 64 age (window * 2 ^ shift),
        test_bit-shl shift age window,
      ))
]

first-Tracks : (s : ℕ) → Tracks (s ∷ []) 1
unfolding contains
first-Tracks s age h k = ground (arith, test_bit-one age)

slide-Tracks :
    (seen : List ℕ) (window s : ℕ)
    → newest seen < s
    → Tracks seen window
    → Tracks (s ∷ seen) (slide window (s - newest seen))
unfolding contains
slide-Tracks seen window s p t age h k =
    let e : max s (newest seen) ≡ s = omega arith in
    rw (e, test_bit-slide window (s - newest seen) age (omega arith) h)
      (ground (arith, contains_above seen (s - age), t (age - (s - newest seen)), shifted))
  where
    shifted : s - newest seen ≤ age → age ≤ s → newest seen - (age - (s - newest seen)) ≡ s - age
    shifted u v = omega arith

set-Tracks :
    (seen : List ℕ) (window age : ℕ)
    → age ≤ newest seen
    → age < k_window
    → Tracks seen window
    → Tracks ((newest seen - age) ∷ seen) (or_bit window age)
unfolding contains
set-Tracks seen window age p q t j h k =
    let e : max (newest seen - age) (newest seen) ≡ newest seen = omega arith in
    rw e (ground (arith, test_bit-or_bit window age j, t j h))

-- The verdict and the next state of one call, on each of its paths.
record Steps (seen : List ℕ) (w : ReplayWindow) (s : ℕ) : Type 0 where
  pub verdict : (accept w s).1 ≡ admits seen s
  pub after : Represents (if admits seen s then s ∷ seen else seen) (accept w s).0

Steps-intro :
    (seen : List ℕ) (w : ReplayWindow) (s : ℕ) (w' : ReplayWindow) (b : Bool)
    → accept w s ≡ (w', b)
    → admits seen s ≡ b
    → Represents (if b then s ∷ seen else seen) w'
    → Steps seen w s
Steps-intro seen w s w' b p q r = record { verdict = rw (p, q); after = rw (p, q) r }

module _ (seen : List ℕ) (w : ReplayWindow) (s : ℕ) (top : w.highest ≡ newest seen)
    (small : newest seen < 2 ^ 32) (t : Tracks seen w.window) where
  newer : newest seen < s → s < 2 ^ 32 → Steps seen w s
  unfolding accept admits
  newer h b =
      Steps-intro seen w s (record { highest = s; window = slide w.window (s - newest seen) }) true
        (ground arith) (ground (arith, contains_above seen s h))
        (tracked (s ∷ seen) _ (omega arith) (omega arith) (slide-Tracks seen w.window s h t))

  stale : s + k_window ≤ newest seen → Steps seen w s
  unfolding accept admits
  stale h = Steps-intro seen w s w false (ground arith) (ground arith) (tracked seen w top small t)

  known : s ≤ newest seen → newest seen < s + k_window → contains seen s ≡ true → Steps seen w s
  unfolding accept admits
  known h k c =
      let e : newest seen - (newest seen - s) ≡ s = omega arith in
      Steps-intro seen w s w false
        (ground (arith, (rw e at (t (newest seen - s) (omega arith) (omega arith))))) (ground arith)
        (tracked seen w top small t)

  missed : s ≤ newest seen → newest seen < s + k_window → contains seen s ≡ false → Steps seen w s
  unfolding accept admits
  missed h k c =
      let e : newest seen - (newest seen - s) ≡ s = omega arith in
      Steps-intro seen w s (record w { window = or_bit w.window (newest seen - s) }) true
        (ground (arith, (rw e at (t (newest seen - s) (omega arith) (omega arith))))) (ground arith)
        (tracked (s ∷ seen) _ (omega arith) (omega arith)
          (rw e at (set-Tracks seen w.window (newest seen - s) (omega arith) (omega arith) t)))

accept-Steps :
    (seen : List ℕ) (w : ReplayWindow) (s : ℕ) → s < 2 ^ 32 → Represents seen w → Steps seen w s
unfolding accept admits contains
accept-Steps [] w s b (blank w' e) =
    Steps-intro [] w s (record { highest = s; window = 1 }) true (ground arith) (ground arith)
      (tracked (s ∷ []) _ (omega arith) (omega arith) (first-Tracks s))
accept-Steps seen w s b (tracked _ _ e small t) = elim (dec_lt (newest seen) s) [
  | yes p ↦ newer seen w s e small t p b
  | no p ↦ elim (dec_le (s + k_window) (newest seen)) [
    | yes q ↦ stale seen w s e small t q
    | no q ↦ elim (Bool-cases (contains seen s)) [
      | inl c ↦ known seen w s e small t (omega arith) (omega arith) c
      | inr c ↦ missed seen w s e small t (omega arith) (omega arith) c
    ]
  ]
]

verdicts-Represents :
    (ss seen : List ℕ) (w : ReplayWindow)
    → All (λ s. s < 2 ^ 32) ss
    → Represents seen w
    → verdicts w ss ≡ admitted seen ss
unfolding verdicts admitted
verdicts-Represents [] seen w h r = refl
verdicts-Represents (s ∷ ss) seen w h r =
    let st = accept-Steps seen w s h.0 r in
    ap₂ ◌∷◌ st.verdict (verdicts-Represents ss _ (accept w s).0 h.1 st.after)

-- For every sequence of 32-bit sequence numbers, the 64-bit bitmap gives the verdicts of the list
-- of accepted numbers: a number passes exactly if it was not accepted before and is less than 64
-- below the highest accepted.
pub verdicts_refines : (ss : List ℕ) → All (λ s. s < 2 ^ 32) ss → verdicts fresh ss ≡ admitted [] ss
unfolding fresh
verdicts_refines ss h = verdicts-Represents ss [] fresh h (blank fresh refl)

-- What passes from a window that represents `seen` is new.
passed-new :
    (ss seen : List ℕ) (w : ReplayWindow) (a : ℕ)
    → All (λ s. s < 2 ^ 32) ss
    → Represents seen w
    → contains seen a ≡ true
    → contains (passed w ss) a ≡ false
unfolding passed contains admits
passed-new [] seen w a h r c = refl
passed-new (s ∷ ss) seen w a h r c =
    let st = accept-Steps seen w s h.0 r in
    let rest = passed-new ss _ (accept w s).0 a h.1 st.after in
    ground (arith, st.verdict, rest, ==_iff s a)

passed-Represents :
    (ss seen : List ℕ) (w : ReplayWindow)
    → All (λ s. s < 2 ^ 32) ss
    → Represents seen w
    → Distinct (passed w ss)
unfolding passed contains admits
passed-Represents [] seen w h r = tt
passed-Represents (s ∷ ss) seen w h r =
    let st = accept-Steps seen w s h.0 r in
    let rest = passed-Represents ss _ (accept w s).0 h.1 st.after in
    elim (Bool-cases (admits seen s)) [
      | inl e ↦
          rw (st.verdict, e)
            (
              passed-new ss (s ∷ seen) (accept w s).0 s h.1 (rw e at st.after)
                  (contains_here seen s),
              rest,
            )
      | inr e ↦ rw (st.verdict, e) rest
    ]

-- No sequence number passes twice, in whatever order 32-bit numbers arrive.
pub passed-Distinct : (ss : List ℕ) → All (λ s. s < 2 ^ 32) ss → Distinct (passed fresh ss)
unfolding fresh
passed-Distinct ss h = passed-Represents ss [] fresh h (blank fresh refl)
