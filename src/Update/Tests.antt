-- ===== src/Update/Tests.antt =====
-- Versions 1.9.0 and 1.10.0, and a policy of two lines.
use scholar_vpn.Prelude.{ℕ, ◌≡◌, ◌⊎◌, ◌↔◌, refl, true, List, [], ◌∷◌, contains, arith}
use scholar_vpn.Update.{
  older, same, newer, segment, next_segment, compare_segments, compare_version, Policy, nothing,
  optional, forced, decide, current_unparsable, below_minimum,
}
use scholar_vpn.Update.Text.{read_lines, get, lines}
use scholar_vpn.Update.Versions.{Version, IsVersion, text, Below, compare_version-numbers}
use scholar_vpn.Update.Decision.{Equal, decide-versions}
use scholar_vpn.Update.Lookup.{Entry, print, last_value, get-print}

abbrev v1_9 : Version
v1_9 = record { major = b'1' ∷ []; minor = b'9' ∷ []; patch = b'0' ∷ [] }

abbrev v1_10 : Version
v1_10 = record { major = b'1' ∷ []; minor = b'1' ∷ b'0' ∷ []; patch = b'0' ∷ [] }

abbrev v1_9-IsVersion : IsVersion v1_9
v1_9-IsVersion = (((refl, tt), omega arith), ((refl, tt), omega arith), ((refl, tt), omega arith))

abbrev v1_10-IsVersion : IsVersion v1_10
v1_10-IsVersion =
    (((refl, tt), omega arith), ((refl, (refl, tt)), omega arith), ((refl, tt), omega arith))

ten_above_nine : compare_version (text v1_9) (text v1_10) ≡ older
unfolding compare_version compare_segments next_segment segment
ten_above_nine = refl

compare_version-numbers_example :
    ((compare_version (text v1_9) (text v1_10) ≡ older) ↔ Below v1_9 v1_10)
    × ((compare_version (text v1_9) (text v1_10) ≡ newer) ↔ Below v1_10 v1_9)
    × ((compare_version (text v1_9) (text v1_10) ≡ same) ↔ Equal v1_9 v1_10)
compare_version-numbers_example = compare_version-numbers v1_9 v1_10 v1_9-IsVersion v1_10-IsVersion

abbrev strict : Policy
strict = record {
  latest = text v1_10;
  minimum = text v1_10;
  notes = [];
  url = b'u' ∷ [];
  sha256 = b's' ∷ [];
  size = 0;
  generated = 0;
  valid = true;
}

forces : decide strict (text v1_9) ≡ (forced, below_minimum)
unfolding decide compare_version compare_segments next_segment segment
forces = refl

-- A `latest` that cannot be read: the minimum is not looked at, and the reason blames the client.
latest_misspelt :
    decide (record strict { latest = b'v' ∷ [] }) (text v1_9) ≡ (optional, current_unparsable)
unfolding decide compare_version compare_segments next_segment segment
latest_misspelt = refl

decide-versions_example :
    (((decide strict (text v1_9)).0 ≡ forced) ↔ Below v1_9 v1_10)
    × (((decide strict (text v1_9)).0 ≡ optional)
        ↔ ((Below v1_10 v1_9 ⊎ Equal v1_9 v1_10) × Below v1_9 v1_10))
    × (((decide strict (text v1_9)).0 ≡ nothing)
        ↔ ((Below v1_10 v1_9 ⊎ Equal v1_9 v1_10) × (Below v1_10 v1_9 ⊎ Equal v1_9 v1_10)))
decide-versions_example =
    decide-versions strict v1_9 v1_10 v1_10 v1_9-IsVersion v1_10-IsVersion v1_10-IsVersion refl refl
      refl

abbrev entries : List (List ℕ × List ℕ)
entries = (b'a' ∷ [], b'x' ∷ []) ∷ (b'a' ∷ [], b'y' ∷ b' ' ∷ b'z' ∷ []) ∷ []

abbrev entries-Entry :
    Entry (b'a' ∷ [], b'x' ∷ []) × (Entry (b'a' ∷ [], b'y' ∷ b' ' ∷ b'z' ∷ []) × Unit {0})
unfolding contains
entries-Entry = (
  ((refl, refl, refl, refl, refl), (refl, refl, refl)),
  (((refl, refl, refl, refl, refl), (refl, refl, refl)), tt),
)

get-print_example :
    get (read_lines [] (lines (print entries))) (b'a' ∷ []) ≡ last_value entries (b'a' ∷ [])
get-print_example = get-print entries (b'a' ∷ []) entries-Entry
