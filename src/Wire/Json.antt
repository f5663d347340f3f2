-- ===== src/Wire/Json.antt =====
-- The JSON text of server/ServerAdmin/AdminWire.h: `escape`, the builder `Json`, `find_value`,
-- `get_string`. Text is a list of bytes.
pub mod Laws
mod Tests
use mathlib.Core.Option
use scholar_vpn.Prelude.{
  ℕ, ◌≡◌, Bool, true, false, ◌&&◌, ◌||◌, List, [], ◌∷◌, ◌++◌, Option, none, some, ◌==◌,
  if◌then◌else◌,
}

abbrev pub quote : ℕ
quote = b'"'

abbrev pub backslash : ℕ
backslash = 92

unfoldable pub escape_byte : ℕ → List ℕ
escape_byte c =
    if c == quote
    then backslash ∷ quote ∷ []
    else if c == backslash
    then backslash ∷ backslash ∷ []
    else if c == 10
    then backslash ∷ b'n' ∷ []
    else if c == 13
    then backslash ∷ b'r' ∷ []
    else if c == 9
    then backslash ∷ b't' ∷ []
    else c ∷ []

unfoldable pub escape : List ℕ → List ℕ
escape [] = []
escape (c ∷ s) = escape_byte c ++ escape s

-- `Json`: the text so far, and whether a field is still to come.
pub record Json : Type 0 where
  pub text : List ℕ
  pub first : Bool

unfoldable pub start : Json
start = record { text = b'{' ∷ []; first = true }

unfoldable pub sep : Json → Json
sep j = record { text = if j.first then j.text else j.text ++ (b',' ∷ []); first = false }

unfoldable pub str : Json → List ℕ → List ℕ → Json
unfolding sep
str j k v = record (sep j) {
  text = (sep j).text ++ (quote ∷ (k ++ (quote ∷ b':' ∷ quote ∷ (escape v ++ (quote ∷ [])))));
}

unfoldable pub done : Json → List ℕ
done j = j.text ++ (b'}' ∷ [])

-- What stands behind the pattern, if the text begins with it.
unfoldable pub strip : List ℕ → List ℕ → Option (List ℕ)
strip [] s = some s
strip (p ∷ pat) [] = none
strip (p ∷ pat) (c ∷ s) = if p == c then strip pat s else none

-- `find`: what stands behind the first occurrence.
unfoldable pub behind : List ℕ → List ℕ → Option (List ℕ)
behind pat [] = strip pat []
behind pat (c ∷ s) = elim (strip pat (c ∷ s)) [ some rest ↦ some rest | none ↦ behind pat s ]

abbrev pub is_blank : ℕ → Bool
is_blank c = c == b' ' || (c == 9 || (c == 10 || c == 13))

unfoldable pub skip_blanks : List ℕ → List ℕ
skip_blanks [] = []
skip_blanks (c ∷ s) = if is_blank c then skip_blanks s else c ∷ s

-- The text from the value on.
unfoldable pub find_value : List ℕ → List ℕ → Option (List ℕ)
find_value obj key = elim (behind (quote ∷ (key ++ (quote ∷ []))) obj) [
  | none ↦ none
  | some rest ↦ Option.map skip_blanks (behind (b':' ∷ []) rest)
]

unfoldable pub unescape : ℕ → ℕ
unescape e = if e == b'n' then 10 else if e == b'r' then 13 else if e == b't' then 9 else e

-- The loop of `get_string` behind the opening quote; `v` is what it has read.
unfoldable pub read_string : List ℕ → List ℕ → Option (List ℕ)
read_string v [] = none
read_string v (c ∷ []) = if c == quote then some v else none
read_string v (c ∷ e ∷ s) =
    let escaped = read_string (v ++ (unescape e ∷ [])) s in
    let plain = read_string (v ++ (c ∷ [])) (e ∷ s) in
    if c == quote then some v else if c == backslash then escaped else plain

unfoldable pub read_value : Option (List ℕ) → Option (List ℕ)
read_value none = none
read_value (some []) = none
read_value (some (c ∷ s)) = if c == quote then read_string [] s else none

unfoldable pub get_string : List ℕ → List ℕ → Option (List ℕ)
get_string obj key = read_value (find_value obj key)
