-- ===== src/Cidr/Counts.antt =====
-- src/platform/iplist.cpp: what `parse_text` counts and appends.
use scholar_vpn.Prelude.{
  ℕ, ◌+◌, ◌≡◌, ◌||◌, List, [], ◌∷◌, Option, none, some, ◌==◌, length, length-append, arith,
  Bool-cases, inl, inr,
}
use scholar_vpn.Update.Text.{lines}
use scholar_vpn.Cidr.{Net, parse, normalize}
use scholar_vpn.Cidr.IpList.{
  Parsed, strip_back, strip_front, add_parsed, count_line, parse_line, parse_lines, parse_text,
}

-- Every line that is counted is of one kind, and each network counted was appended.
pub record IsCounted (p : Parsed) : Type 0 where
  pub kinds : p.stats.lines ≡ p.stats.valid + p.stats.comments + p.stats.malformed
  pub appended : length p.out ≡ p.stats.valid

add_parsed-IsCounted :
    (p : Parsed) (o : Option Net) → IsCounted p → IsCounted (add_parsed (count_line p) o)
unfolding add_parsed
add_parsed-IsCounted p none v = record { kinds = omega (arith, v.kinds); appended = v.appended }
add_parsed-IsCounted p (some c) v = record {
  kinds = omega (arith, v.kinds);
  appended = omega (arith, v.appended, length-append p.out (normalize c ∷ []));
}

parse_line-IsCounted : (p : Parsed) (l : List ℕ) → IsCounted p → IsCounted (parse_line p l)
unfolding parse_line
parse_line-IsCounted p [] v = v
parse_line-IsCounted p (c ∷ s) v = elim (Bool-cases ((c == b'#') || (c == b';'))) [
  | inl e ↦ rw (e, parse_line) (record { kinds = omega (arith, v.kinds); appended = v.appended })
  | inr e ↦ rw (e, parse_line) (add_parsed-IsCounted p (parse (c ∷ s)) v)
]

parse_lines-IsCounted :
    (p : Parsed) (ls : List (List ℕ)) → IsCounted p → IsCounted (parse_lines p ls)
unfolding parse_lines
parse_lines-IsCounted p [] v = v
parse_lines-IsCounted p (l ∷ ls) v =
    parse_lines-IsCounted (parse_line p (strip_front (strip_back l))) ls
      (parse_line-IsCounted p (strip_front (strip_back l)) v)

-- Whatever the text holds: if before the call each counted line was valid, a comment or malformed and
-- the list held one network for each valid line, then so it is after the call.
pub parse_text-IsCounted :
    (p : Parsed) (text : List ℕ) → IsCounted p → IsCounted (parse_text p text)
unfolding parse_text
parse_text-IsCounted p text v = parse_lines-IsCounted p (lines text) v
