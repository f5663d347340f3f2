-- ===== src/Update/Lookup.antt =====
-- The text of a policy in src/update/update_policy.cpp: entries written as lines, and read.
use scholar_vpn.Prelude.{
  ℕ, ◌≡◌, refl, sym, ap, ap₂, ◌∙◌, Bool, true, false, ◌||◌, List, [], ◌∷◌, ◌++◌, some, ◌==◌,
  if◌then◌else◌, bytes_eq, contains, All, arith, append_assoc,
}
use scholar_vpn.Update.Text.{
  is_blank, trim_start, put_front, trim_end, trim, lines, split, put_entry, read_line, read_lines,
  get,
}

-- An entry written as a line, with blanks around the sign.
abbrev pub print_entry : List ℕ × List ℕ → List ℕ
print_entry (k, v) = k ++ (b' ' ∷ b'=' ∷ b' ' ∷ v)

abbrev pub print : List (List ℕ × List ℕ) → List ℕ
print [] = []
print (e ∷ es) = print_entry e ++ (10 ∷ print es)

-- No blank at either end, and no line end inside.
abbrev pub Value : List ℕ → Type 0
Value v = (trim_start v ≡ v) × (trim_end v ≡ v) × (contains v 10 ≡ false)

-- Not empty, no mark of a comment in front, no `=` inside.
abbrev pub Key : List ℕ → Type 0
Key [] = true ≡ false
Key (c ∷ k) =
    (is_blank c ≡ false)
    × (((c == b'#') || (c == b';')) ≡ false)
    × (contains (c ∷ k) b'=' ≡ false)
    × (contains (c ∷ k) 10 ≡ false)
    × (trim_end (c ∷ k) ≡ c ∷ k)

abbrev pub Entry : List ℕ × List ℕ → Type 0
Entry (k, v) = Key k × Value v

trim_end-solid :
    (s : List ℕ) (c : ℕ) (w : List ℕ)
    → is_blank c ≡ false
    → trim_end (s ++ (c ∷ w)) ≡ s ++ (c ∷ trim_end w)
trim_end-solid [] c w h = here c (trim_end w) h
  where
    here : (c : ℕ) (w : List ℕ) → is_blank c ≡ false → put_front c w ≡ c ∷ w
    here c [] h = rw h refl
    here c (d ∷ w) h = refl
trim_end-solid (x ∷ s) c w h = rw (trim_end-solid s c w h) (front x s w)
  where
    front :
        (x : ℕ) (s w : List ℕ) → put_front x (s ++ (c ∷ trim_end w)) ≡ x ∷ (s ++ (c ∷ trim_end w))
    front x [] w = refl
    front x (y ∷ s) w = refl

trim_end-blank : (s : List ℕ) → trim_end (s ++ (b' ' ∷ [])) ≡ trim_end s
trim_end-blank [] = refl
trim_end-blank (c ∷ s) = ap (put_front c) (trim_end-blank s)

-- Lines are cut at the first line end.
lines-append : (s rest : List ℕ) → contains s 10 ≡ false → lines (s ++ (10 ∷ rest)) ≡ s ∷ lines rest
unfolding contains
lines-append [] rest h = refl
lines-append (c ∷ s) rest h =
    let (a, b) = apart c (contains s 10) h in rw (a, lines-append s rest b) refl
  where
    apart : (c : ℕ) (b : Bool) → ((c == 10) || b) ≡ false → ((c == 10) ≡ false) × (b ≡ false)
    apart c b h = ground arith

split-append : (k v : List ℕ) → contains k b'=' ≡ false → split (k ++ (b'=' ∷ v)) ≡ some (k, v)
unfolding contains
split-append [] v h = refl
split-append (c ∷ k) v h =
    let (a, b) = apart c (contains k b'=') h in rw (a, split-append k v b) refl
  where
    apart : (c : ℕ) (b : Bool) → ((c == b'=') || b) ≡ false → ((c == b'=') ≡ false) × (b ≡ false)
    apart c b h = ground arith

contains-append : (s t : List ℕ) (x : ℕ) → contains (s ++ t) x ≡ (contains s x || contains t x)
unfolding contains
contains-append [] t x = refl
contains-append (c ∷ s) t x =
    rw (contains-append s t x) (assoc (c == x) (contains s x) (contains t x))
  where
    assoc : (a b c : Bool) → (a || (b || c)) ≡ ((a || b) || c)
    assoc a b c = ground arith

trim-Value : (v : List ℕ) → Value v → trim (trim_end (b' ' ∷ v)) ≡ v
trim-Value [] h = refl
trim-Value (c ∷ v) h = rw (h.1) (rw (h.0) h.1)

trim-key :
    (c : ℕ) (k : List ℕ)
    → is_blank c ≡ false
    → trim_end (c ∷ k) ≡ c ∷ k
    → trim ((c ∷ k) ++ (b' ' ∷ [])) ≡ c ∷ k
trim-key c k b e = rw b (trim_end-blank (c ∷ k) ∙ e)

trim-entry :
    (c : ℕ) (k v : List ℕ)
    → is_blank c ≡ false
    → trim (print_entry (c ∷ k, v)) ≡ ((c ∷ k) ++ (b' ' ∷ [])) ++ (b'=' ∷ trim_end (b' ' ∷ v))
trim-entry c k v b = rw b (
    ap trim_end (sym (append_assoc (c ∷ k) (b' ' ∷ []) (b'=' ∷ b' ' ∷ v)))
    ∙ trim_end-solid ((c ∷ k) ++ (b' ' ∷ [])) b'=' (b' ' ∷ v) refl)

read_line-entry :
    (kv : List (List ℕ × List ℕ)) (k v : List ℕ)
    → Entry (k, v)
    → read_line kv (trim (print_entry (k, v))) ≡ (k, v) ∷ kv
unfolding read_line contains
read_line-entry kv [] v h = absurd (cc)
read_line-entry kv (c ∷ k) v h =
    let (b, mark, sign, nl, e) = h.0 in
    ap (read_line kv) (trim-entry c k v b)
    ∙ rw (mark, read_line)
        (ap (put_entry kv) (
            split-append ((c ∷ k) ++ (b' ' ∷ [])) (trim_end (b' ' ∷ v))
              (contains-append (c ∷ k) (b' ' ∷ []) b'=' ∙ rw sign refl))
          ∙ ap₂ (λ x y. (x, y) ∷ kv) (trim-key c k b e) (trim-Value v h.1))

print_entry-one_line : (k v : List ℕ) → Entry (k, v) → contains (print_entry (k, v)) 10 ≡ false
unfolding contains
print_entry-one_line [] v h = absurd (cc)
print_entry-one_line (c ∷ k) v h =
    contains-append (c ∷ k) (b' ' ∷ b'=' ∷ b' ' ∷ v) 10 ∙ rw (h.0.3, h.1.2) refl

newest : List (List ℕ × List ℕ) → List (List ℕ × List ℕ) → List (List ℕ × List ℕ)
newest [] kv = kv
newest (e ∷ es) kv = newest es (e ∷ kv)

read_lines-print :
    (es kv : List (List ℕ × List ℕ))
    → All Entry es
    → read_lines kv (lines (print es)) ≡ newest es kv
unfolding read_lines read_line newest
read_lines-print [] kv h = refl
read_lines-print ((k, v) ∷ es) kv h =
    rw (lines-append (print_entry (k, v)) (print es) (print_entry-one_line k v h.0), read_lines)
      (ap (λ x. read_lines x (lines (print es))) (read_line-entry kv k v h.0)
        ∙ read_lines-print es ((k, v) ∷ kv) h.1)

-- Some entry has the key.
abbrev pub mentions : List (List ℕ × List ℕ) → List ℕ → Bool
mentions [] key = false
mentions ((k, v) ∷ es) key = bytes_eq k key || mentions es key

-- The value of the last entry with the key; empty where there is none.
abbrev pub last_value : List (List ℕ × List ℕ) → List ℕ → List ℕ
last_value [] key = []
last_value ((k, v) ∷ es) key =
    if mentions es key then last_value es key else if bytes_eq k key then v else []

get-newest :
    (es kv : List (List ℕ × List ℕ)) (key : List ℕ)
    → get (newest es kv) key ≡ (if mentions es key then last_value es key else get kv key)
unfolding newest get
get-newest [] kv key = refl
get-newest ((k, v) ∷ es) kv key =
    get-newest es ((k, v) ∷ kv) key ∙ cases (mentions es key) (bytes_eq k key) _ _ _
  where
    cases :
        (m b : Bool) (l v r : List ℕ)
        → (if m then l else (if b then v else r))
          ≡ (if b || m then (if m then l else (if b then v else [])) else r)
    cases m b l v r = ground arith

last_value-missing :
    (es : List (List ℕ × List ℕ)) (key : List ℕ)
    → (if mentions es key then last_value es key else []) ≡ last_value es key
last_value-missing [] key = refl
last_value-missing ((k, v) ∷ es) key = cases (mentions es key) (bytes_eq k key) _ _
  where
    cases :
        (m b : Bool) (l v : List ℕ)
        → (if b || m then (if m then l else (if b then v else [])) else [])
          ≡ (if m then l else (if b then v else []))
    cases m b l v = ground arith

-- In a text that holds one line `key = value` for each entry, whose keys are not empty and have no
-- blank at an end, no mark of a comment in front and no `=` inside, whose values have no blank at an
-- end, and neither with a line end inside, each key is found with the value of its last entry, and a
-- key without an entry as the empty text.
pub get-print :
    (es : List (List ℕ × List ℕ)) (key : List ℕ)
    → All Entry es
    → get (read_lines [] (lines (print es))) key ≡ last_value es key
unfolding get
get-print es key h =
    ap (λ kv. get kv key) (read_lines-print es [] h)
    ∙ get-newest es [] key
    ∙ last_value-missing es key
