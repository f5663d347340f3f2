-- ===== src/Wire/Json/Laws.antt =====
-- server/ServerAdmin/AdminWire.h: `get_string` on what `escape` writes.
use mathlib.Core.Option
use scholar_vpn.Prelude.{
  ℕ, ◌≡◌, refl, ap, sym, ◌∙◌, List, [], ◌∷◌, ◌++◌, some, ==_iff, arith, append_assoc, append-nil,
  ◌≢◌,
}
use scholar_vpn.Wire.Json.{
  quote, escape_byte, escape, start, str, strip, behind, skip_blanks, find_value, unescape,
  read_string, read_value, get_string,
}

read_string-escape_byte :
    (v s : List ℕ) (c d : ℕ)
    → read_string v (escape_byte c ++ (d ∷ s)) ≡ read_string (v ++ (c ∷ [])) (d ∷ s)
unfolding read_string escape_byte unescape
read_string-escape_byte v s c d = ground arith

-- A text with a byte in it has a first one.
Starts : List ℕ → Type 0
Starts xs = (d : ℕ) × (t : List ℕ) × (xs ≡ d ∷ t)

Starts-append : (xs ys : List ℕ) → xs ≢ [] → Starts (xs ++ ys)
unfolding Starts
Starts-append [] ys h = absurd (h refl)
Starts-append (x ∷ xs) ys h = (x, xs ++ ys, refl)

escape_byte-ne-nil : (c : ℕ) → escape_byte c ≢ []
unfolding escape_byte
escape_byte-ne-nil c = ground arith

escape-Starts : (s rest : List ℕ) → Starts (escape s ++ (quote ∷ rest))
unfolding escape Starts
escape-Starts [] rest = (quote, rest, refl)
escape-Starts (c ∷ s) rest =
    rw (append_assoc (escape_byte c) (escape s) (quote ∷ rest))
      (Starts-append (escape_byte c) (escape s ++ (quote ∷ rest)) (escape_byte-ne-nil c))

-- The loop behind the opening quote reads back any escaped bytes, up to the closing quote.
pub read_string-escape :
    (s v rest : List ℕ) → read_string v (escape s ++ (quote ∷ rest)) ≡ some (v ++ s)
unfolding escape read_string Starts
read_string-escape [] v [] = ap some (sym (append-nil v))
read_string-escape [] v (r ∷ rest) = ap some (sym (append-nil v))
read_string-escape (c ∷ s) v rest =
    let (d, t, e) = escape-Starts s rest in
    ap (read_string v)
      (append_assoc (escape_byte c) (escape s) (quote ∷ rest) ∙ ap (◌++◌ (escape_byte c)) e)
    ∙ read_string-escape_byte v t c d
    ∙ ap (read_string (v ++ (c ∷ []))) (sym e)
    ∙ read_string-escape s (v ++ (c ∷ [])) rest
    ∙ ap some (append_assoc v (c ∷ []) s)

strip-append : (pat rest : List ℕ) → strip pat (pat ++ rest) ≡ some rest
unfolding strip
strip-append [] rest = refl
strip-append (p ∷ pat) rest = ground (arith, strip-append pat rest, ==_iff p p)

behind_here :
    (p : ℕ) (pat s rest : List ℕ) → strip (p ∷ pat) s ≡ some rest → behind (p ∷ pat) s ≡ some rest
unfolding behind
behind_here p pat [] rest e = e
behind_here p pat (c ∷ s) rest e = rw (e, behind)

behind_later : (p c : ℕ) (pat s : List ℕ) → p ≢ c → behind (p ∷ pat) (c ∷ s) ≡ behind (p ∷ pat) s
unfolding behind strip
behind_later p c pat s n = ground arith

-- The text of a first field, split where the pattern of its key ends.
field_text :
    (k v rest : List ℕ)
    → (str start k v).text ++ rest
      ≡ b'{' ∷ ((quote ∷ (k ++ (quote ∷ []))) ++ (b':' ∷ quote ∷ (escape v ++ (quote ∷ rest))))
unfolding str start
field_text k v rest = simp append_assoc

skip_quote : (s : List ℕ) → Option.map skip_blanks (some (quote ∷ s)) ≡ some (quote ∷ s)
unfolding skip_blanks
skip_quote s = refl

find_value-field :
    (k v rest : List ℕ)
    → find_value ((str start k v).text ++ rest) k ≡ some (quote ∷ (escape v ++ (quote ∷ rest)))
unfolding find_value
find_value-field k v rest =
    let after = b':' ∷ quote ∷ (escape v ++ (quote ∷ rest)) in
    let pat = k ++ (quote ∷ []) in
    let found : behind (quote ∷ pat) ((str start k v).text ++ rest) ≡ some after =
      ap (behind (quote ∷ pat)) (field_text k v rest)
      ∙ behind_later quote b'{' pat ((quote ∷ pat) ++ after) (λ e. absurd (omega arith))
      ∙ behind_here quote pat ((quote ∷ pat) ++ after) after (strip-append (quote ∷ pat) after) in
    rw
      (
        found,
        find_value,
        behind_here b':' [] after (quote ∷ (escape v ++ (quote ∷ rest)))
            (strip-append (b':' ∷ []) _),
      )
      (skip_quote (escape v ++ (quote ∷ rest)))

-- `get_string` gives back the first field of an object that the builder made, whatever bytes the
-- value holds and whatever follows the field.
pub get_string-first : (k v rest : List ℕ) → get_string ((str start k v).text ++ rest) k ≡ some v
unfolding get_string read_value
get_string-first k v rest = ap read_value (find_value-field k v rest) ∙ read_string-escape v [] rest
