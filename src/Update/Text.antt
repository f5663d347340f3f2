-- ===== src/Update/Text.antt =====
-- The text of a policy in src/update/update_policy.cpp: lines `key = value` become a map.
use scholar_vpn.Prelude.{
  ℕ, Bool, ◌||◌, List, [], ◌∷◌, Option, none, some, ◌==◌, if◌then◌else◌, bytes_eq,
}

-- One of `" \t\r\n"`.
abbrev pub is_blank : ℕ → Bool
is_blank c = (c == b' ') || ((c == 9) || ((c == 13) || (c == 10)))

abbrev pub trim_start : List ℕ → List ℕ
trim_start [] = []
trim_start (c ∷ s) = let rest = trim_start s in if is_blank c then rest else c ∷ s

-- A byte in front of what is left, where a blank with nothing behind it goes.
abbrev pub put_front : ℕ → List ℕ → List ℕ
put_front c [] = if is_blank c then [] else c ∷ []
put_front c (d ∷ s) = c ∷ d ∷ s

abbrev pub trim_end : List ℕ → List ℕ
trim_end [] = []
trim_end (c ∷ s) = put_front c (trim_end s)

abbrev pub trim : List ℕ → List ℕ
trim s = trim_end (trim_start s)

abbrev pub add_front : ℕ → List (List ℕ) → List (List ℕ)
add_front c [] = (c ∷ []) ∷ []
add_front c (l ∷ ls) = (c ∷ l) ∷ ls

-- The text cut at its line ends.
abbrev pub lines : List ℕ → List (List ℕ)
lines [] = [] ∷ []
lines (c ∷ s) = if c == 10 then [] ∷ lines s else add_front c (lines s)

abbrev grow : ℕ → Option (List ℕ × List ℕ) → Option (List ℕ × List ℕ)
grow c none = none
grow c (some (k, v)) = some (c ∷ k, v)

-- The parts before and behind the first `=`.
abbrev pub split : List ℕ → Option (List ℕ × List ℕ)
split [] = none
split (c ∷ s) = let rest = split s in if c == b'=' then some ([], s) else grow c rest

abbrev pub put_entry : List (List ℕ × List ℕ) → Option (List ℕ × List ℕ) → List (List ℕ × List ℕ)
put_entry kv none = kv
put_entry kv (some (k, v)) = (trim k, trim v) ∷ kv

-- One line without the blanks around it; the map has the latest entry first.
unfoldable pub read_line : List (List ℕ × List ℕ) → List ℕ → List (List ℕ × List ℕ)
read_line kv [] = kv
read_line kv (c ∷ s) = if (c == b'#') || (c == b';') then kv else put_entry kv (split (c ∷ s))

unfoldable pub read_lines : List (List ℕ × List ℕ) → List (List ℕ) → List (List ℕ × List ℕ)
read_lines kv [] = kv
read_lines kv (l ∷ ls) = read_lines (read_line kv (trim l)) ls

-- Empty where the key is missing.
unfoldable pub get : List (List ℕ × List ℕ) → List ℕ → List ℕ
get [] key = []
get ((k, v) ∷ kv) key = if bytes_eq k key then v else get kv key
