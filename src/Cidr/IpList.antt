-- ===== src/Cidr/IpList.antt =====
-- `parse_text` of src/platform/iplist.cpp.
use scholar_vpn.Prelude.{ℕ, ◌+◌, ◌||◌, List, [], ◌∷◌, ◌++◌, Option, none, some, ◌==◌, if◌then◌else◌}
use scholar_vpn.Update.Text.{lines}
use scholar_vpn.Cidr.{Net, parse, normalize}

pub record Stats : Type 0 where
  pub lines : ℕ
  pub valid : ℕ
  pub comments : ℕ
  pub malformed : ℕ

-- The list that grows, and the counts.
pub record Parsed : Type 0 where
  pub out : List Net
  pub stats : Stats

-- Carriage returns, blanks and tabs at the end.
abbrev pub back : ℕ → List ℕ → List ℕ
back c [] = if (c == 13) || ((c == b' ') || (c == 9)) then [] else c ∷ []
back c (d ∷ s) = c ∷ d ∷ s

abbrev pub strip_back : List ℕ → List ℕ
strip_back [] = []
strip_back (c ∷ s) = back c (strip_back s)

abbrev pub strip_front : List ℕ → List ℕ
strip_front [] = []
strip_front (c ∷ s) = let rest = strip_front s in if (c == b' ') || (c == 9) then rest else c ∷ s

unfoldable pub add_parsed : Parsed → Option Net → Parsed
add_parsed p none = record p { stats = record p.stats { malformed = p.stats.malformed + 1 } }
add_parsed p (some c) = record {
  out = p.out ++ (normalize c ∷ []);
  stats = record p.stats { valid = p.stats.valid + 1 };
}

abbrev pub count_line : Parsed → Parsed
count_line p = record p { stats = record p.stats { lines = p.stats.lines + 1 } }

abbrev pub count_comment : Parsed → Parsed
count_comment p = record p { stats = record p.stats { comments = p.stats.comments + 1 } }

unfoldable pub parse_line : Parsed → List ℕ → Parsed
unfolding add_parsed
parse_line p [] = p
parse_line p (c ∷ s) =
    if (c == b'#') || (c == b';')
    then count_comment (count_line p)
    else add_parsed (count_line p) (parse (c ∷ s))

unfoldable pub parse_lines : Parsed → List (List ℕ) → Parsed
parse_lines p [] = p
parse_lines p (l ∷ ls) = parse_lines (parse_line p (strip_front (strip_back l))) ls

unfoldable pub parse_text : Parsed → List ℕ → Parsed
unfolding parse_lines
parse_text p text = parse_lines p (lines text)
