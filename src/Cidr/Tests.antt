-- ===== src/Cidr/Tests.antt =====
-- The network 10.8.0.0/29, and a list of three lines.
use scholar_vpn.Prelude.{ℕ, ◌-◌, ◌/◌, ◌^◌, ◌≡◌, ◌↔◌, refl, true, List, [], ◌∷◌, ◌++◌, some, arith}
use scholar_vpn.Cidr.{
  Net, mask_of, octet_from, parse_octet, parse_dot, prefix_from, parse_prefix, parse_trimmed, parse,
  normalize, contains, ◌>>=◌,
}
use scholar_vpn.Cidr.IpList.{Parsed, add_parsed, parse_line, parse_lines, parse_text}
use scholar_vpn.Cidr.Range.{contains_iff}

abbrev net : Net
net = record { addr = 0x0a080000; prefix = 29 }

abbrev inside : ℕ
inside = 0x0a080006

contains_iff_example :
    (contains net inside ≡ true) ↔ (inside / 2 ^ (32 - 29) ≡ 0x0a080000 / 2 ^ (32 - 29))
contains_iff_example = contains_iff net inside (omega arith) (omega arith) (omega arith)

-- " 1.2.3.4/8\r"
abbrev line : List ℕ
line = b' ' ∷ b'1' ∷ b'.' ∷ b'2' ∷ b'.' ∷ b'3' ∷ b'.' ∷ b'4' ∷ b'/' ∷ b'8' ∷ 13 ∷ []

parse-line : parse line ≡ some (record { addr = 0x01020304; prefix = 8 })
unfolding parse parse_trimmed parse_octet octet_from parse_dot parse_prefix prefix_from ◌>>=◌
parse-line = refl

-- A comment, the line and a line that is no network.
abbrev text : List ℕ
text = (b'#' ∷ b'x' ∷ 10 ∷ []) ++ (line ++ (10 ∷ b'1' ∷ b'.' ∷ []))

abbrev none_yet : Parsed
none_yet = record { out = []; stats = record { lines = 0; valid = 0; comments = 0; malformed = 0 } }

text-parsed : parse_text none_yet text ≡ record {
  out = record { addr = 0x01000000; prefix = 8 } ∷ [];
  stats = record { lines = 3; valid = 1; comments = 1; malformed = 1 };
}
unfolding parse_text parse_lines parse_line add_parsed normalize mask_of parse parse_trimmed
    parse_octet octet_from parse_dot parse_prefix prefix_from ◌>>=◌
text-parsed = refl
