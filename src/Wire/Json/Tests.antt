-- ===== src/Wire/Json/Tests.antt =====
-- A value with a quote in it; and a value spelled like a key, which `find_value` takes for the key.
use scholar_vpn.Prelude.{ℕ, ◌≡◌, refl, List, [], ◌∷◌, ◌++◌, some}
use scholar_vpn.Wire.Json.{
  start, sep, str, done, escape, escape_byte, get_string, read_value, find_value, behind, strip,
  skip_blanks, read_string, unescape,
}
use scholar_vpn.Wire.Json.Laws.{get_string-first, read_string-escape}

-- "id"
abbrev id : List ℕ
id = b'i' ∷ b'd' ∷ []

-- a quote and a line break
abbrev odd : List ℕ
odd = 34 ∷ 10 ∷ []

get_string-first_example : get_string ((str start id odd).text ++ (b'}' ∷ [])) id ≡ some odd
get_string-first_example = get_string-first id odd (b'}' ∷ [])

read_string-escape_example : read_string [] (escape odd ++ (34 ∷ [])) ≡ some odd
read_string-escape_example = read_string-escape odd [] []

-- {"a":"id","b":"x","id":"y"} is read as "x".
shadowed_key :
    get_string
      (done (str (str (str start (b'a' ∷ []) id) (b'b' ∷ []) (b'x' ∷ [])) id (b'y' ∷ [])))
      id
    ≡ some (b'x' ∷ [])
unfolding get_string find_value behind strip done str sep start escape escape_byte skip_blanks
    read_value read_string unescape
shadowed_key = refl
