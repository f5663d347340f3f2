-- ===== src/Ini/Lookup.antt =====
-- What `get` of src/platform/ini_doc.h finds behind `set` and `del_key`.
use scholar_vpn.Prelude.{
  ℕ, ◌≡◌, inl, inr, refl, sym, ◌∙◌, true, false, ◌&&◌, List, [], ◌∷◌, Option, none, some,
  if◌then◌else◌, All, Bool-cases, by_branch,
}
use scholar_vpn.Ini.{
  Line, section, key_value, has_kind, has_none, ini_i_equals, holds, get, overwrite, new_line,
  into_block, insert_at, append_section, insert_kv, set, del_key, head, plain,
}
use scholar_vpn.Ini.Names.{same_name, holds-same, holds-renamed, covered}

-- The line is put among the others, perhaps with lines that hold no key.
record Adds (kv : Line) (ls ls' : List Line) : Type 0 where
  pub others :
      (sec key def : List ℕ) → holds kv sec key ≡ false → get ls' sec key def ≡ get ls sec key def
  pub own :
      (sec key def : List ℕ)
      → holds kv sec key ≡ true
      → All (λ l. holds l sec key ≡ false) ls
      → get ls' sec key def ≡ kv.value

first-Adds : (kv : Line) (ls : List Line) → Adds kv ls (kv ∷ ls)
unfolding get
first-Adds kv ls = record {
  others = λ sec key def h. rw (h, get) refl;
  own = λ sec key def h n. rw (h, get) refl;
}

behind-Adds : (kv l : Line) (ls ls' : List Line) → Adds kv ls ls' → Adds kv (l ∷ ls) (l ∷ ls')
unfolding get
behind-Adds kv l ls ls' a = record {
  others = λ sec key def h. rw (a.others sec key def h) refl;
  own = λ sec key def h n. rw (n.0, get) (a.own sec key def h n.1);
}

with-Adds :
    (kv l : Line) (ls ls' : List Line)
    → has_kind l.kind key_value ≡ false
    → Adds kv ls ls'
    → Adds kv ls (l ∷ ls')
unfolding get holds
with-Adds kv l ls ls' k a = record {
  others = λ sec key def h. rw (k, get) (a.others sec key def h);
  own = λ sec key def h n. rw (k, get) (a.own sec key def h n);
}

into_block-Adds : (ls : List Line) (kv : Line) → Adds kv ls (into_block ls kv)
unfolding into_block
into_block-Adds [] kv = first-Adds kv []
into_block-Adds (l ∷ ls) kv =
    by_branch (Adds kv (l ∷ ls)) (has_kind l.kind section) _ _ (λ b. first-Adds kv (l ∷ ls))
      (λ b. behind-Adds kv l ls (into_block ls kv) (into_block-Adds ls kv))

append_section-Adds :
    (ls : List Line) (sec : List ℕ) (kv : Line) → Adds kv ls (append_section ls sec kv)
unfolding append_section
append_section-Adds [] sec kv = with-Adds kv (head sec) [] (kv ∷ []) refl (first-Adds kv [])
append_section-Adds (l ∷ []) sec kv =
    by_branch (Adds kv (l ∷ [])) (has_none l.text) _ _
      (λ b. behind-Adds kv l [] (head sec ∷ kv ∷ []) started)
      (λ b.
        behind-Adds kv l [] (plain [] ∷ head sec ∷ kv ∷ [])
          (with-Adds kv (plain []) [] (head sec ∷ kv ∷ []) refl started))
  where
    started : Adds kv [] (head sec ∷ kv ∷ [])
    started = with-Adds kv (head sec) [] (kv ∷ []) refl (first-Adds kv [])
append_section-Adds (l ∷ m ∷ ls) sec kv =
    behind-Adds kv l (m ∷ ls) (append_section (m ∷ ls) sec kv) (append_section-Adds (m ∷ ls) sec kv)

AddsTo : Line → List Line → Option (List Line) → Type 0
AddsTo kv ls none = Unit
AddsTo kv ls (some ls') = Adds kv ls ls'

insert_at-AddsTo : (ls : List Line) (sec : List ℕ) (kv : Line) → AddsTo kv ls (insert_at ls sec kv)
unfolding insert_at AddsTo
insert_at-AddsTo [] sec kv = tt
insert_at-AddsTo (l ∷ ls) sec kv = step (insert_at ls sec kv) (insert_at-AddsTo ls sec kv)
  where
    step :
        (r : Option (List Line))
        → AddsTo kv ls r
        → AddsTo kv (l ∷ ls) (elim r [
          | some ls' ↦ some (l ∷ ls')
          | none ↦
              if has_kind l.kind section && ini_i_equals l.section sec
              then some (l ∷ into_block ls kv)
              else none
        ])
    step none a =
        by_branch (AddsTo kv (l ∷ ls)) (has_kind l.kind section && ini_i_equals l.section sec) _ _
          (λ b. behind-Adds kv l ls (into_block ls kv) (into_block-Adds ls kv)) (λ b. tt)
    step (some ls') a = behind-Adds kv l ls ls' a

insert_kv-Adds :
    (d : List Line) (sec key val : List ℕ) → Adds (new_line sec key val) d (insert_kv d sec key val)
unfolding insert_kv AddsTo
insert_kv-Adds d sec key val =
    pick (insert_at d sec (new_line sec key val)) (insert_at-AddsTo d sec (new_line sec key val))
  where
    pick :
        (r : Option (List Line))
        → AddsTo (new_line sec key val) d r
        → Adds
            (new_line sec key val)
            d
            (elim r [ some d' ↦ d' | none ↦ append_section d sec (new_line sec key val) ])
    pick none a = append_section-Adds d sec (new_line sec key val)
    pick (some d') a = a

-- What is there under a name behind a change of one key.
Answers : (sec key val : List ℕ) → List Line → List Line → Type 0
Answers sec key val d d' =
    (sec' key' def : List ℕ)
    → get d' sec' key' def ≡ (if same_name sec key sec' key' then val else get d sec' key' def)

-- The first line of the key is changed, or no line holds it.
Overwritten : (sec key val : List ℕ) → List Line → Option (List Line) → Type 0
Overwritten sec key val d none = All (λ l. holds l sec key ≡ false) d
Overwritten sec key val d (some d') = Answers sec key val d d'

overwrite-Overwritten :
    (d : List Line) (sec key val : List ℕ) → Overwritten sec key val d (overwrite d sec key val)
unfolding overwrite Overwritten Answers get
overwrite-Overwritten [] sec key val = tt
overwrite-Overwritten (l ∷ ls) sec key val =
    by_branch (Overwritten sec key val (l ∷ ls)) (holds l sec key) _ _
      (λ h. λ sec' key' def. first h sec' key' def)
      (λ h. later h (overwrite ls sec key val) (overwrite-Overwritten ls sec key val))
  where
    first :
        holds l sec key ≡ true
        → (sec' key' def : List ℕ)
        → (if holds l sec' key' then val else get ls sec' key' def) ≡ (
            if same_name sec key sec' key'
            then val
            else (if holds l sec' key' then l.value else get ls sec' key' def))
    first h sec' key' def =
        let e = holds-same l sec key sec' key' h in
        covered (holds l sec' key') (same_name sec key sec' key') val l.value (get ls sec' key' def)
          e

    later :
        holds l sec key ≡ false
        → (r : Option (List Line)) → Overwritten sec key val ls r
        → Overwritten sec key val (l ∷ ls) (elim r [ none ↦ none | some ls' ↦ some (l ∷ ls') ])
    later h none a = (h, a)
    later h (some ls') a = λ sec' key' def. elim (Bool-cases (same_name sec key sec' key')) [
      | inl s ↦ rw (s, sym (holds-renamed l sec key sec' key' s) ∙ h) (a sec' key' def ∙ rw s refl)
      | inr s ↦ rw (s, a sec' key' def) (rw s refl)
    ]

insert_kv-Answers :
    (d : List Line) (sec key val : List ℕ)
    → All (λ l. holds l sec key ≡ false) d
    → Answers sec key val d (insert_kv d sec key val)
unfolding Answers new_line holds
insert_kv-Answers d sec key val n sec' key' def =
    let a = insert_kv-Adds d sec key val in
    elim (Bool-cases (same_name sec key sec' key')) [
      | inl s ↦ rw s (a.own sec' key' def s (renamed d s n))
      | inr s ↦ rw s (a.others sec' key' def s)
    ]
  where
    renamed :
        (ls : List Line)
        → same_name sec key sec' key' ≡ true
        → All (λ l. holds l sec key ≡ false) ls
        → All (λ l. holds l sec' key' ≡ false) ls
    renamed [] s h = tt
    renamed (l ∷ ls) s h = (sym (holds-renamed l sec key sec' key' s) ∙ h.0, renamed ls s h.1)

-- Behind a change of a key, its name in whatever case finds the new value, and each other name finds
-- what it found before, whether the key was there, its section was, or neither.
pub get-set :
    (d : List Line) (sec key val sec' key' def : List ℕ)
    → get (set d sec key val) sec' key' def
      ≡ (if same_name sec key sec' key' then val else get d sec' key' def)
unfolding set Overwritten Answers
get-set d sec key val sec' key' def =
    pick (overwrite d sec key val) (overwrite-Overwritten d sec key val)
  where
    pick :
        (r : Option (List Line))
        → Overwritten sec key val d r
        → get (elim r [ some d' ↦ d' | none ↦ insert_kv d sec key val ]) sec' key' def
          ≡ (if same_name sec key sec' key' then val else get d sec' key' def)
    pick none a = insert_kv-Answers d sec key val a sec' key' def
    pick (some d') a = a sec' key' def

-- Behind the removal of a key, its name in whatever case finds the default, also where several lines
-- held the key, and each other name finds what it found before.
pub get-del_key :
    (d : List Line) (sec key sec' key' def : List ℕ)
    → get (del_key d sec key) sec' key' def
      ≡ (if same_name sec key sec' key' then def else get d sec' key' def)
unfolding get del_key
get-del_key [] sec key sec' key' def =
    by_branch (λ (x : List ℕ). def ≡ x) (same_name sec key sec' key') _ _ (λ b. refl) (λ b. refl)
get-del_key (l ∷ ls) sec key sec' key' def = elim (Bool-cases (holds l sec key)) [
  | inl h ↦
      rw (h, del_key)
        (get-del_key ls sec key sec' key' def ∙ covered' (holds-same l sec key sec' key' h))
  | inr h ↦ elim (Bool-cases (same_name sec key sec' key')) [
    | inl s ↦
        let n : holds l sec' key' ≡ false = sym (holds-renamed l sec key sec' key' s) ∙ h in
        let ih : get (del_key ls sec key) sec' key' def ≡ def =
          get-del_key ls sec key sec' key' def ∙ rw s refl in
        rw (h, del_key) (rw (n, s) ih)
    | inr s ↦ rw (h, del_key) (rw (get-del_key ls sec key sec' key' def, s) refl)
  ]
]
  where
    covered' :
        holds l sec' key' ≡ same_name sec key sec' key'
        → (if same_name sec key sec' key' then def else get ls sec' key' def) ≡ (
            if same_name sec key sec' key'
            then def
            else (if holds l sec' key' then l.value else get ls sec' key' def))
    covered' e =
        rw (sym e)
          (covered (holds l sec' key') (holds l sec' key') def l.value (get ls sec' key' def) refl)
