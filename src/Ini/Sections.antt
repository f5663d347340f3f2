-- ===== src/Ini/Sections.antt =====
-- `del_section` of src/platform/ini_doc.h behind any edits of a file.
use scholar_vpn.Prelude.{
  ℕ, ◌≡◌, refl, sym, ◌∙◌, Bool, true, false, ◌&&◌, List, [], ◌∷◌, if◌then◌else◌, arith, inl, inr,
  Bool-cases, by_branch,
}
use scholar_vpn.Ini.{
  Line, section, key_value, has_kind, ini_i_equals, load, holds, get, set, del_key, del_lines,
  del_section,
}
use scholar_vpn.Ini.Names.{ini_i_equals-same, ini_i_equals-sym}
use scholar_vpn.Ini.Order.{
  under, InOrder, not_head, load-InOrder, set-InOrder, del_key-InOrder, del_section-InOrder,
}

pub data Edit : Type 0 where
  to_set : List ℕ → List ℕ → List ℕ → Edit
  to_del_key : List ℕ → List ℕ → Edit
  to_del_section : List ℕ → Edit

unfoldable pub edit : List Line → Edit → List Line
edit d (to_set sec key val) = set d sec key val
edit d (to_del_key sec key) = del_key d sec key
edit d (to_del_section sec) = del_section d sec

unfoldable pub edits : List Line → List Edit → List Line
unfolding edit
edits d [] = d
edits d (e ∷ es) = edits (edit d e) es

edits-InOrder : (d : List Line) (es : List Edit) → InOrder [] d → InOrder [] (edits d es)
unfolding edits
edits-InOrder d [] h = h
edits-InOrder d (to_set sec key val ∷ es) h =
    edits-InOrder (set d sec key val) es (set-InOrder [] d sec key val h)
edits-InOrder d (to_del_key sec key ∷ es) h =
    edits-InOrder (del_key d sec key) es (del_key-InOrder [] d sec key h)
edits-InOrder d (to_del_section sec ∷ es) h =
    edits-InOrder (del_section d sec) es (del_section-InOrder [] d sec h)

-- Whether the lines behind `l` are dropped.
abbrev goes : Bool → List ℕ → Line → Bool
goes dropping sec l = if has_kind l.kind section then ini_i_equals l.section sec else dropping

-- A line that holds a key of `sec'` goes if this is the section, and only then.
goes-holds :
    (dropping : Bool) (cur sec : List ℕ) (l : Line) (sec' key' : List ℕ)
    → (has_kind l.kind key_value ≡ true → ini_i_equals cur l.section ≡ true)
    → dropping ≡ ini_i_equals cur sec
    → holds l sec' key' ≡ true
    → ini_i_equals sec sec' ≡ goes dropping sec l
unfolding holds
goes-holds dropping cur sec l sec' key' p e h =
    let (k, q) =
      parts (has_kind l.kind key_value) (ini_i_equals l.section sec') (ini_i_equals l.key key') h in
    let c : ini_i_equals cur sec' ≡ true = ini_i_equals-same cur l.section sec' (p k) ∙ q in
    rw (not_head l.kind k)
      (ini_i_equals-sym sec sec' ∙ sym (ini_i_equals-same cur sec' sec c) ∙ sym e)
  where
    parts : (u v w : Bool) → (u && (v && w)) ≡ true → (u ≡ true) × (v ≡ true)
    parts u v w h = ground arith

goes-under :
    (dropping : Bool) (cur sec : List ℕ) (l : Line)
    → dropping ≡ ini_i_equals cur sec
    → goes dropping sec l ≡ ini_i_equals (under cur l) sec
goes-under dropping cur sec l e = elim (Bool-cases (has_kind l.kind section)) [
  | inl s ↦ rw s refl
  | inr s ↦ rw s e
]

get-del_lines :
    (dropping : Bool) (cur : List ℕ) (d : List Line) (sec sec' key' def : List ℕ)
    → InOrder cur d
    → dropping ≡ ini_i_equals cur sec
    → get (del_lines dropping d sec) sec' key' def
      ≡ (if ini_i_equals sec sec' then def else get d sec' key' def)
unfolding get del_lines InOrder
get-del_lines dropping cur [] sec sec' key' def h e =
    by_branch (λ (x : List ℕ). def ≡ x) (ini_i_equals sec sec') _ _ (λ b. refl) (λ b. refl)
get-del_lines dropping cur (l ∷ ls) sec sec' key' def h e =
    let now = goes dropping sec l in
    let ih =
      get-del_lines now (under cur l) ls sec sec' key' def h.1 (goes-under dropping cur sec l e) in
    let f = goes-holds dropping cur sec l sec' key' h.0 e in
    by_branch
      (λ (x : List Line). get x sec' key' def ≡ (
        if ini_i_equals sec sec'
        then def
        else (if holds l sec' key' then l.value else get ls sec' key' def)))
      now _ _
      (λ b.
        ih
        ∙ dropped (holds l sec' key') (ini_i_equals sec sec') def l.value (get ls sec' key' def)
            (λ t. f t ∙ b))
      (λ b. rw ih (
        kept (holds l sec' key') (ini_i_equals sec sec') def l.value (get ls sec' key' def)
          (λ t. f t ∙ b)))
  where
    dropped :
        (t same : Bool) (x y z : List ℕ)
        → (t ≡ true → same ≡ true)
        → (if same then x else z) ≡ (if same then x else (if t then y else z))
    dropped true same x y z f = rw (f refl) refl
    dropped false same x y z f = refl

    kept :
        (t same : Bool) (x y z : List ℕ)
        → (t ≡ true → same ≡ false)
        → (if t then y else (if same then x else z)) ≡ (if same then x else (if t then y else z))
    kept true same x y z f = rw (f refl) refl
    kept false same x y z f = refl

-- In a file that was loaded and edited in whatever way, the removal of a section with a name removes
-- all its keys, and each key of another section is found as before.
pub get-del_section :
    (bytes : List ℕ) (es : List Edit) (c : ℕ) (cs sec' key' def : List ℕ)
    → get (del_section (edits (load bytes) es) (c ∷ cs)) sec' key' def
      ≡ (if ini_i_equals (c ∷ cs) sec' then def else get (edits (load bytes) es) sec' key' def)
unfolding del_section ini_i_equals
get-del_section bytes es c cs sec' key' def =
    get-del_lines false [] (edits (load bytes) es) (c ∷ cs) sec' key' def
      (edits-InOrder (load bytes) es (load-InOrder bytes)) refl
