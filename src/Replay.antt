-- ===== src/Replay.antt =====
-- The anti-replay window of src/replay_window.h: `ReplayWindow`, a 64-bit bitmap over the sequence
-- numbers below the highest one accepted. server/UDP/Session.h holds the same text under a mutex.
pub mod History
pub mod Refine
pub mod Laws
mod Tests
use scholar_vpn.Prelude.{
  ℕ, ◌+◌, ◌-◌, ◌*◌, ◌%◌, ◌^◌, Bool, true, false, ltb, leb, ◌==◌, if◌then◌else◌,
}
use scholar_vpn.Prelude.Bits.{test_bit, or_bit}

abbrev pub k_window : ℕ
k_window = 64

-- `~0ull`: nothing accepted yet.
abbrev pub k_none : ℕ
k_none = 2 ^ 64 - 1

pub record ReplayWindow : Type 0 where
  pub highest : ℕ
  pub window : ℕ

unfoldable pub fresh : ReplayWindow
fresh = record { highest = k_none; window = 0 }

-- The bitmap after the highest number rises by `shift`.
unfoldable pub slide : ℕ → ℕ → ℕ
slide window shift = if leb k_window shift then 1 else or_bit (window * 2 ^ shift % 2 ^ 64) 0

-- A number `age` below the highest.
unfoldable pub accept_old : ReplayWindow → ℕ → ReplayWindow × Bool
accept_old w age =
    if leb k_window age
    then (w, false)
    else if test_bit w.window age
    then (w, false)
    else (record w { window = or_bit w.window age }, true)

unfoldable pub accept : ReplayWindow → ℕ → ReplayWindow × Bool
unfolding slide accept_old
accept w seq =
    if w.highest == k_none
    then (record { highest = seq; window = 1 }, true)
    else if ltb w.highest seq
    then (record { highest = seq; window = slide w.window (seq - w.highest) }, true)
    else accept_old w (w.highest - seq)

unfoldable pub too_old : ReplayWindow → ℕ → Bool
too_old w seq =
    if w.highest == k_none
    then false
    else if ltb w.highest seq
    then false
    else leb k_window (w.highest - seq)

unfoldable pub reset : ReplayWindow → ReplayWindow
unfolding fresh
reset w = fresh
