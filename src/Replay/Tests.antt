-- ===== src/Replay/Tests.antt =====
-- Frames in and out of order through the window of src/replay_window.h.
use scholar_vpn.Prelude.{ℕ, ◌^◌, ◌<◌, ◌≡◌, refl, true, false, List, [], ◌∷◌, arith, Distinct, All}
use scholar_vpn.Prelude.Bits.{test_bit, or_bit}
use scholar_vpn.Replay.{ReplayWindow, fresh, accept, too_old}
use scholar_vpn.Replay.History.{verdicts, admitted, passed}
use scholar_vpn.Replay.Refine.{verdicts_refines, passed-Distinct}
use scholar_vpn.Replay.Laws.{too_old_sound}

-- Out of order, twice, far ahead, and then too old.
abbrev arrivals : List ℕ
arrivals = 5 ∷ 7 ∷ 6 ∷ 7 ∷ 100 ∷ 36 ∷ 37 ∷ 37 ∷ []

arrivals_small : All (λ s. s < 2 ^ 32) arrivals
arrivals_small = omega arith

arrivals-verdicts :
    verdicts fresh arrivals ≡ true ∷ true ∷ true ∷ false ∷ true ∷ false ∷ true ∷ false ∷ []
unfolding verdicts accept fresh test_bit or_bit
arrivals-verdicts = refl

verdicts_refines_example : verdicts fresh arrivals ≡ admitted [] arrivals
verdicts_refines_example = verdicts_refines arrivals arrivals_small

passed-Distinct_example : Distinct (passed fresh arrivals)
passed-Distinct_example = passed-Distinct arrivals arrivals_small

abbrev ahead : ReplayWindow
ahead = record { highest = 100; window = 1 }

too_old_sound_example : accept ahead 36 ≡ (ahead, false)
unfolding too_old
too_old_sound_example = too_old_sound ahead 36 refl
