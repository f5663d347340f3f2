-- ===== src/Reconnect/Tests.antt =====
-- A token that is refused, then four more failures; and a line that comes and goes.
use scholar_vpn.Prelude.{ℕ, ◌≡◌, ◌≤◌, refl, List, [], ◌∷◌, some, none, All}
use scholar_vpn.Reconnect.{
  stopped, connecting, connected, reconnecting, Outcome, failed, lost, stopped_later, start, round,
  run,
}
use scholar_vpn.Reconnect.Laws.{run-sleeps}

abbrev token : List ℕ
token = 7 ∷ []

abbrev refusals : List Outcome
refusals = failed (some 1) ∷ failed none ∷ failed none ∷ failed (some 0) ∷ failed none ∷ []

refusals-run :
    ((run (start token) refusals).sleeps ≡ 4000 ∷ 2000 ∷ 1000 ∷ 500 ∷ [])
    × ((run (start token) refusals).register_token ≡ [])
    × ((run (start token) refusals).tokens_rejected ≡ 1)
unfolding run start round
refusals-run = (refl, refl, refl)

run-sleeps_example : All (λ s. (500 ≤ s) × (s ≤ 4000)) (run (start token) refusals).sleeps
run-sleeps_example = run-sleeps token refusals

comes_and_goes :
    (run (start token) (lost ∷ failed none ∷ stopped_later ∷ [])).states
    ≡ stopped ∷ connected ∷ reconnecting ∷ reconnecting ∷ reconnecting ∷ reconnecting ∷ connected
      ∷ connecting ∷ connecting ∷ []
unfolding run start round
comes_and_goes = refl
