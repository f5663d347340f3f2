-- ===== src/Wire/Frames/Tests.antt =====
-- Two frames that arrive in three chunks.
use scholar_vpn.Prelude.{ℕ, ◌≡◌, refl, false, List, [], ◌∷◌}
use scholar_vpn.Wire.Frames.{send_frame, send_all, receive}
use scholar_vpn.Wire.Frames.Stream.{receive_sent}

abbrev payloads : List (List ℕ)
payloads = (1 ∷ 2 ∷ []) ∷ (3 ∷ []) ∷ []

abbrev chunks : List (List ℕ)
chunks = (0 ∷ 0 ∷ []) ∷ (0 ∷ 2 ∷ 1 ∷ 2 ∷ 0 ∷ []) ∷ (0 ∷ 0 ∷ 1 ∷ 3 ∷ []) ∷ []

receive_sent_example :
    receive (record { buf = []; bad = false }) chunks ≡ (payloads, record { buf = []; bad = false })
unfolding send_all send_frame
receive_sent_example = receive_sent payloads chunks refl
