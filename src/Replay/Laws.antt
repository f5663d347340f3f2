-- ===== src/Replay/Laws.antt =====
-- src/replay_window.h: the check before decryption, and the widths of the two words.
use scholar_vpn.Prelude.{ℕ, ◌-◌, ◌*◌, ◌%◌, ◌^◌, ◌<◌, ◌≡◌, ◌⊎◌, true, false, arith}
use scholar_vpn.Prelude.Bits.{or_bit-lt, test_bit}
use scholar_vpn.Replay.{ReplayWindow, accept, accept_old, slide, too_old, k_none}

-- What `too_old` drops before decryption, `accept` would drop after it, with no change of state.
pub too_old_sound : (w : ReplayWindow) (s : ℕ) → too_old w s ≡ true → accept w s ≡ (w, false)
unfolding too_old accept
too_old_sound w s h = ground arith

-- A number that `accept` drops leaves the state as it was, and is either too old for `too_old` or
-- one whose bit is set in the window.
pub accept_drops :
    (w : ReplayWindow) (s : ℕ)
    → (accept w s).1 ≡ false
    → ((accept w s).0 ≡ w) × ((too_old w s ≡ true) ⊎ (test_bit w.window (w.highest - s) ≡ true))
unfolding too_old accept
accept_drops w s h = grind arith

-- The bitmap fits 64 bits, and the highest number is a 32-bit number or the mark for none.
pub record IsValid (w : ReplayWindow) : Type 0 where
  pub fits : w.window < 2 ^ 64
  pub top : (w.highest ≡ k_none) ⊎ (w.highest < 2 ^ 32)

slide-lt : (window shift : ℕ) → slide window shift < 2 ^ 64
unfolding slide
slide-lt window shift = ground (arith, or_bit-lt 64 0 (window * 2 ^ shift % 2 ^ 64))

-- `accept` of a 32-bit number keeps both words within their widths.
pub accept-IsValid : (w : ReplayWindow) (s : ℕ) → s < 2 ^ 32 → IsValid w → IsValid (accept w s).0
unfolding accept accept_old
accept-IsValid w s h v =
    ground (arith, slide-lt w.window (s - w.highest), or_bit-lt 64 (w.highest - s) w.window)
