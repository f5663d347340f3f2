-- ===== src/Ini/Saved.antt =====
-- `save` and `load` of src/platform/ini_doc.h.
use scholar_vpn.Prelude.{
  ℕ, ◌≡◌, refl, sym, ap, ◌∙◌, subst, false, not, ◌&&◌, List, [], ◌∷◌, ◌++◌, ◌==◌, ==_iff,
  if◌then◌else◌, All, inl, inr, Bool-cases, by_branch, Option-cases,
}
use scholar_vpn.Ini.{
  Line, section, has_kind, has_none, is_space, trim_left, trim_right, ini_trim, get_lines,
  pop_return, front_is, back_is, find_eq, classify, load_lines, load, save, get, holds,
  read_file_as_utf8,
}

-- The text is one line.
NoBreak : List ℕ → Type 0
NoBreak t = All (λ c. (c == 10) ≡ false) t

get_lines-NoBreak : (t : List ℕ) → All NoBreak (get_lines t)
unfolding get_lines NoBreak
get_lines-NoBreak [] = tt
get_lines-NoBreak (c ∷ cs) =
    by_branch (All NoBreak) (c == 10) _ _ (λ b. (tt, get_lines-NoBreak cs))
      (λ b. longer b (get_lines cs) (get_lines-NoBreak cs))
  where
    longer :
        (c == 10) ≡ false
        → (r : List (List ℕ)) → All NoBreak r
        → All NoBreak (elim r [ [] ↦ (c ∷ []) ∷ [] | l ∷ ls ↦ (c ∷ l) ∷ ls ])
    longer b [] h = ((b, tt), tt)
    longer b (l ∷ ls) h = ((b, h.0), h.1)

pop_return-NoBreak : (t : List ℕ) → NoBreak t → NoBreak (pop_return t)
unfolding pop_return NoBreak
pop_return-NoBreak [] h = tt
pop_return-NoBreak (c ∷ cs) h =
    by_branch NoBreak (has_none cs && (c == 13)) _ _ (λ b. tt)
      (λ b. (h.0, pop_return-NoBreak cs h.1))

-- A line in front is taken as one.
get_lines-line : (t rest : List ℕ) → NoBreak t → get_lines (t ++ (10 ∷ rest)) ≡ t ∷ get_lines rest
unfolding get_lines NoBreak
get_lines-line [] rest h = refl
get_lines-line (c ∷ t) rest h = rw (h.0, get_lines-line t rest h.1) refl

pop_return-one : (c : ℕ) → (c == 13) ≡ false → pop_return (c ∷ []) ≡ c ∷ []
unfolding pop_return
pop_return-one c b = rw b refl

-- A carriage return at the end is blank.
trim_right-pop_return : (t : List ℕ) → trim_right (pop_return t) ≡ trim_right t
unfolding trim_right pop_return
trim_right-pop_return [] = refl
trim_right-pop_return (c ∷ []) = elim (Bool-cases (c == 13)) [
  | inl b ↦
      subst (λ x. trim_right (pop_return (x ∷ [])) ≡ trim_right (x ∷ [])) (sym ((==_iff c 13).0 b))
        refl
  | inr b ↦ ap trim_right (pop_return-one c b)
]
trim_right-pop_return (c ∷ d ∷ cs) = rw (trim_right-pop_return (d ∷ cs)) refl

ini_trim-pop_return : (t : List ℕ) → ini_trim (pop_return t) ≡ ini_trim t
unfolding ini_trim trim_left pop_return
ini_trim-pop_return [] = refl
ini_trim-pop_return (c ∷ []) = elim (Bool-cases (c == 13)) [
  | inl b ↦
      subst (λ x. ini_trim (pop_return (x ∷ [])) ≡ ini_trim (x ∷ [])) (sym ((==_iff c 13).0 b)) refl
  | inr b ↦ ap ini_trim (pop_return-one c b)
]
ini_trim-pop_return (c ∷ d ∷ cs) = elim (Bool-cases (is_space c)) [
  | inl s ↦ rw (s, trim_left) (ini_trim-pop_return (d ∷ cs))
  | inr s ↦ rw (s, trim_left) (trim_right-pop_return (c ∷ d ∷ cs))
]

-- The line keeps its text, and the text plays no part in the rest.
classify-text :
    (cur raw trimmed : List ℕ)
    → classify cur raw trimmed ≡ record (classify cur [] trimmed) { text = raw }
unfolding classify
classify-text cur raw trimmed = elim (Bool-cases (front_is trimmed b'[' && back_is trimmed b']')) [
  | inl b ↦ rw b refl
  | inr b ↦
      elim (Bool-cases
        (not (has_none trimmed) && (not (front_is trimmed b';') && not (front_is trimmed b'#')))) [
          | inl c ↦ elim (Option-cases (find_eq trimmed)) [
            | inl e ↦ rw (b, c, e) refl
            | inr (p, e) ↦ rw (b, c, e) refl
          ]
          | inr c ↦ rw (b, c) refl
        ]
]

-- The texts of the lines.
texts : List Line → List (List ℕ)
texts [] = []
texts (l ∷ ls) = l.text ∷ texts ls

get_lines-save : (d : List Line) → All NoBreak (texts d) → get_lines (save d) ≡ texts d
unfolding save texts get_lines
get_lines-save [] h = refl
get_lines-save (l ∷ ls) h =
    get_lines-line l.text (save ls) h.0 ∙ ap (λ r. l.text ∷ r) (get_lines-save ls h.1)

load_lines-NoBreak :
    (cur : List ℕ) (raws : List (List ℕ))
    → All NoBreak raws
    → All NoBreak (texts (load_lines cur raws))
unfolding load_lines texts
load_lines-NoBreak cur [] h = tt
load_lines-NoBreak cur (raw ∷ raws) h =
    let l = classify cur (pop_return raw) (ini_trim (pop_return raw)) in
    (
      subst NoBreak
          (sym (
            ap (λ (x : Line). x.text)
              (classify-text cur (pop_return raw) (ini_trim (pop_return raw)))))
          (pop_return-NoBreak raw h.0),
      load_lines-NoBreak (if has_kind l.kind section then l.section else cur) raws h.1,
    )

-- The line that is read in a section.
abbrev line_of : List ℕ → List ℕ → Line
line_of cur raw = classify cur (pop_return raw) (ini_trim (pop_return raw))

line_of-text :
    (cur raw : List ℕ)
    → line_of cur raw ≡ record (classify cur [] (ini_trim raw)) { text = pop_return raw }
line_of-text cur raw =
    ap (classify cur (pop_return raw)) (ini_trim-pop_return raw)
    ∙ classify-text cur (pop_return raw) (ini_trim raw)

-- Its text is read as the same line, up to the text.
line_of-again :
    (cur raw : List ℕ)
    → line_of cur (line_of cur raw).text
      ≡ record (classify cur [] (ini_trim raw)) { text = pop_return (pop_return raw) }
line_of-again cur raw =
    ap (line_of cur) (ap (λ (x : Line). x.text) (line_of-text cur raw))
    ∙ line_of-text cur (pop_return raw)
    ∙ ap (λ s. record (classify cur [] s) { text = pop_return (pop_return raw) })
        (ini_trim-pop_return raw)

-- The texts are read as the lines were.
get-texts :
    (cur : List ℕ) (raws : List (List ℕ)) (sec key def : List ℕ)
    → get (load_lines cur (texts (load_lines cur raws))) sec key def
      ≡ get (load_lines cur raws) sec key def
unfolding load_lines texts get holds
get-texts cur [] sec key def = refl
get-texts cur (raw ∷ raws) sec key def =
    let l = classify cur [] (ini_trim raw) in
    same (line_of cur raw) (line_of cur (line_of cur raw).text) l (pop_return raw)
      (pop_return (pop_return raw)) (line_of-text cur raw) (line_of-again cur raw)
      (get-texts (if has_kind l.kind section then l.section else cur) raws sec key def)
  where
    same :
        (l l' m : Line) (a b : List ℕ)
        → l ≡ record m { text = a }
        → l' ≡ record m { text = b }
        → (let c : List ℕ = if has_kind m.kind section then m.section else cur in
            get (load_lines c (texts (load_lines c raws))) sec key def
            ≡ get (load_lines c raws) sec key def)
        → get
            (l'
              ∷ load_lines
                  (if has_kind l'.kind section then l'.section else cur)
                  (texts (load_lines (if has_kind l.kind section then l.section else cur) raws)))
            sec
            key
            def
          ≡ get
              (l ∷ load_lines (if has_kind l.kind section then l.section else cur) raws)
              sec
              key
              def
    same l l' m a b e e' ih = rw (e, e') (rw ih refl)

-- A file that is loaded and saved finds the same values when it is loaded again, for all sections and
-- keys, unless the saved text begins with the mark of an encoding.
pub get-save :
    (bytes sec key def : List ℕ)
    → read_file_as_utf8 (save (load bytes)) ≡ save (load bytes)
    → get (load (save (load bytes))) sec key def ≡ get (load bytes) sec key def
unfolding load
get-save bytes sec key def h =
    let raws = get_lines (read_file_as_utf8 bytes) in
    ap (λ s. get (load_lines [] (get_lines s)) sec key def) h
    ∙ ap (λ r. get (load_lines [] r) sec key def)
        (get_lines-save (load_lines [] raws)
          (load_lines-NoBreak [] raws (get_lines-NoBreak (read_file_as_utf8 bytes))))
    ∙ get-texts [] raws sec key def
