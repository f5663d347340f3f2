-- ===== src/Update.antt =====
-- src/update/update_policy.cpp: `compare_version`, `parse_policy` and `decide`.
pub mod Text
pub mod Versions
pub mod Decision
pub mod Lookup
mod Tests
use scholar_vpn.Prelude.{
  ℕ, zero, suc, ◌+◌, ◌-◌, ◌*◌, Bool, true, false, ◌&&◌, ◌||◌, not, List, [], ◌∷◌, ◌++◌, Option,
  none, some, ltb, leb, ◌==◌, if◌then◌else◌,
}
use scholar_vpn.Update.Text.{get, lines, read_lines}

-- The results -1, 0, 1 and -2 of `compare_version`.
pub data Compared : Type 0 where
  older same newer unparsable : Compared

abbrev pub is_digit : ℕ → Bool
is_digit c = leb b'0' c && leb c b'9'

-- The number in front of the next dot or the end, and the text behind the dot; `value` is what was
-- read so far.
unfoldable pub segment : ℕ → List ℕ → Option (ℕ × List ℕ)
segment value [] = some (value, [])
segment value (c ∷ cs) =
    let rest = segment (value * 10 + (c - b'0')) cs in
    if c == b'.'
    then some (value, cs)
    else if is_digit c && not (ltb 0xFFFF (value * 10 + (c - b'0')))
    then rest
    else none

-- A missing segment is 0, an empty one an error. The text is what is left from `pos` on.
unfoldable pub next_segment : List ℕ → Option (ℕ × List ℕ)
next_segment [] = some (0, [])
next_segment (c ∷ cs) = if c == b'.' then none else segment 0 (c ∷ cs)

unfoldable pub compare_segments : ℕ → List ℕ → List ℕ → Compared
compare_segments zero a b = same
compare_segments (suc i) a b = elim (next_segment a) [
  | none ↦ unparsable
  | some x ↦ elim (next_segment b) [
    | none ↦ unparsable
    | some y ↦
        let rest = compare_segments i x.1 y.1 in
        if x.0 == y.0 then rest else if ltb x.0 y.0 then older else newer
  ]
]

unfoldable pub compare_version : List ℕ → List ℕ → Compared
compare_version [] b = unparsable
compare_version (x ∷ a) [] = unparsable
compare_version (x ∷ a) (y ∷ b) = compare_segments 3 (x ∷ a) (y ∷ b)

pub record Policy : Type 0 where
  pub latest : List ℕ
  pub minimum : List ℕ
  pub notes : List ℕ
  pub url : List ℕ
  pub sha256 : List ℕ
  pub size : ℕ
  pub generated : ℕ
  pub valid : Bool

abbrev pub is_empty : List ℕ → Bool
is_empty [] = true
is_empty (x ∷ xs) = false

-- The second where the first is empty.
abbrev pub or_else : List ℕ → List ℕ → List ℕ
or_else [] t = t
or_else (c ∷ s) t = c ∷ s

-- The constructors stand for the texts of `reason`.
pub data Reason : Type 0 where
  not_configured current_unparsable below_minimum minimum_unparsable new_version up_to_date : Reason

pub data Action : Type 0 where
  nothing optional forced : Action

abbrev pub is_older : Compared → Bool
is_older older = true
is_older c = false

abbrev pub is_unparsable : Compared → Bool
is_unparsable unparsable = true
is_unparsable c = false

-- `strtoull` reads a number in base 10; it is not called for an empty text.
abbrev pub number : (List ℕ → ℕ) → List ℕ → ℕ
number strtoull [] = 0
number strtoull (c ∷ s) = strtoull (c ∷ s)

-- The key of the platform, and else the general one.
abbrev pub platform : List (List ℕ × List ℕ) → List ℕ → List ℕ → List ℕ
platform kv os key = or_else (get kv (os ++ (b'_' ∷ key))) (get kv key)

abbrev latest_key : List ℕ
latest_key = b'l' ∷ b'a' ∷ b't' ∷ b'e' ∷ b's' ∷ b't' ∷ []

abbrev minimum_key : List ℕ
minimum_key = b'm' ∷ b'i' ∷ b'n' ∷ b'i' ∷ b'm' ∷ b'u' ∷ b'm' ∷ []

abbrev notes_key : List ℕ
notes_key = b'n' ∷ b'o' ∷ b't' ∷ b'e' ∷ b's' ∷ []

abbrev url_key : List ℕ
url_key = b'u' ∷ b'r' ∷ b'l' ∷ []

abbrev sha256_key : List ℕ
sha256_key = b's' ∷ b'h' ∷ b'a' ∷ b'2' ∷ b'5' ∷ b'6' ∷ []

abbrev size_key : List ℕ
size_key = b's' ∷ b'i' ∷ b'z' ∷ b'e' ∷ []

abbrev generated_key : List ℕ
generated_key = b'g' ∷ b'e' ∷ b'n' ∷ b'e' ∷ b'r' ∷ b'a' ∷ b't' ∷ b'e' ∷ b'd' ∷ []

-- The policy that the entries give.
unfoldable pub policy_of : (List ℕ → ℕ) → List (List ℕ × List ℕ) → List ℕ → Policy
policy_of strtoull kv os = record {
  latest = get kv latest_key;
  minimum = get kv minimum_key;
  notes = get kv notes_key;
  url = platform kv os url_key;
  sha256 = platform kv os sha256_key;
  size = number strtoull (platform kv os size_key);
  generated = number strtoull (get kv generated_key);
  valid = not (is_empty (platform kv os url_key)) && not (is_empty (platform kv os sha256_key));
}

-- `none` is the result false.
unfoldable pub parse_policy : (List ℕ → ℕ) → List ℕ → List ℕ → Option Policy
parse_policy strtoull text os =
    let kv = read_lines [] (lines text) in
    if is_empty (get kv latest_key) then none else some (policy_of strtoull kv os)

unfoldable pub decide : Policy → List ℕ → Action × Reason
decide p current =
    let c_latest = compare_version current p.latest in
    let c_min = compare_version current p.minimum in
    let by_latest = if is_older c_latest then optional else nothing in
    if not p.valid || is_empty p.latest
    then (nothing, not_configured)
    else if is_unparsable c_latest
    then (optional, current_unparsable)
    else if not (is_empty p.minimum) && is_older c_min
    then (forced, below_minimum)
    else if not (is_empty p.minimum) && is_unparsable c_min
    then (by_latest, minimum_unparsable)
    else if is_older c_latest
    then (optional, new_version)
    else (nothing, up_to_date)
