-- ===== src/Replay/History.antt =====
-- What the window of src/replay_window.h promises, said of the list of the numbers it has accepted.
use Prim.Native.Nat.{max}
use scholar_vpn.Prelude.{
  ℕ, ◌+◌, ◌<◌, ◌≡◌, refl, Bool, false, not, ◌&&◌, List, [], ◌∷◌, arith, ltb, if◌then◌else◌,
  contains,
}
use scholar_vpn.Replay.{ReplayWindow, accept, k_window}

-- The highest number accepted.
abbrev pub newest : List ℕ → ℕ
newest [] = 0
newest (x ∷ xs) = max x (newest xs)

-- New, and less than 64 below the highest.
unfoldable pub admits : List ℕ → ℕ → Bool
admits seen seq = not (contains seen seq) && ltb (newest seen) (seq + k_window)

-- The verdicts on a sequence of frames that arrive one after the other.
unfoldable pub verdicts : ReplayWindow → List ℕ → List Bool
verdicts w [] = []
verdicts w (s ∷ ss) = let (w', verdict) = accept w s in verdict ∷ verdicts w' ss

unfoldable pub admitted : List ℕ → List ℕ → List Bool
admitted seen [] = []
admitted seen (s ∷ ss) = admits seen s ∷ admitted (if admits seen s then s ∷ seen else seen) ss

-- The numbers that the window lets through.
unfoldable pub passed : ReplayWindow → List ℕ → List ℕ
passed w [] = []
passed w (s ∷ ss) =
    let (w', verdict) = accept w s in let rest = passed w' ss in if verdict then s ∷ rest else rest

pub contains_above : (xs : List ℕ) (a : ℕ) → newest xs < a → contains xs a ≡ false
unfolding contains
contains_above [] a h = refl
contains_above (x ∷ xs) a h = ground (arith, contains_above xs a)
