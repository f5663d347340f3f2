-- ===== src/Ini/Order.antt =====
-- The order of the lines of src/platform/ini_doc.h: a key stands behind the head of its section.
use scholar_vpn.Prelude.{
  ℕ, ◌≡◌, refl, sym, ◌∙◌, subst, Bool, true, false, not, ◌&&◌, List, [], ◌∷◌, Option, none, some,
  if◌then◌else◌, arith, inl, inr, Bool-cases, by_branch, by_option,
}
use scholar_vpn.Ini.{
  Line, Kind, section, key_value, other, has_kind, has_none, ini_i_equals, ini_trim, find_eq,
  front_is, back_is, pop_return, classify, load_lines, load, get_lines, read_file_as_utf8, holds,
  overwrite, new_line, into_block, insert_at, append_section, insert_kv, set, del_key, del_lines,
  del_section, head,
}
use scholar_vpn.Ini.Names.{ini_i_equals_refl, ini_i_equals-same}

-- The section behind a line.
abbrev pub under : List ℕ → Line → List ℕ
under cur l = if has_kind l.kind section then l.section else cur

-- Behind the head of `cur` each key names this section, up to case.
unfoldable pub InOrder : List ℕ → List Line → Type 0
InOrder cur [] = Unit
InOrder cur (l ∷ ls) =
    (has_kind l.kind key_value ≡ true → ini_i_equals cur l.section ≡ true)
    × InOrder (under cur l) ls

-- The spelling of the head plays no part.
InOrder-same :
    (a b : List ℕ) (ls : List Line) → ini_i_equals a b ≡ true → InOrder b ls → InOrder a ls
unfolding InOrder
InOrder-same a b [] e h = tt
InOrder-same a b (l ∷ ls) e h = (
  λ k. ini_i_equals-same a b l.section e ∙ h.0 k,
  elim (Bool-cases (has_kind l.kind section)) [
    | inl s ↦ subst (λ x. InOrder x ls) (rw s refl) h.1
    | inr s ↦ rw s (InOrder-same a b ls e (rw s at h.1))
  ],
)

abbrev OrderedIf : List ℕ → Option (List Line) → Type 0
OrderedIf cur none = Unit
OrderedIf cur (some ls) = InOrder cur ls

module _ (kv : Line) (is_key : has_kind kv.kind section ≡ false) where
  into_block-InOrder :
      (cur : List ℕ) (ls : List Line)
      → ini_i_equals cur kv.section ≡ true
      → InOrder cur ls
      → InOrder cur (into_block ls kv)
  unfolding InOrder into_block
  into_block-InOrder cur [] e h = (λ k. e, tt)
  into_block-InOrder cur (l ∷ ls) e h =
      by_branch (InOrder cur) (has_kind l.kind section) _ _ (λ s. (λ k. e, rw is_key h))
        (λ s. (h.0, rw s (into_block-InOrder cur ls e (rw s at h.1))))

  append_section-InOrder :
      (cur : List ℕ) (ls : List Line)
      → InOrder cur ls
      → InOrder cur (append_section ls kv.section kv)
  unfolding InOrder append_section
  append_section-InOrder cur [] h = ended cur
    where
      ended : (c : List ℕ) → InOrder c (head kv.section ∷ kv ∷ [])
      ended c = (λ k. absurd (cc), (λ k. ini_i_equals_refl kv.section, tt))
  append_section-InOrder cur (l ∷ []) h =
      by_branch (InOrder cur) (has_none l.text) _ _ (λ b. (h.0, ended (under cur l)))
        (λ b. (h.0, (λ k. absurd (cc), ended (under cur l))))
    where
      ended : (c : List ℕ) → InOrder c (head kv.section ∷ kv ∷ [])
      ended c = (λ k. absurd (cc), (λ k. ini_i_equals_refl kv.section, tt))
  append_section-InOrder cur (l ∷ m ∷ ls) h =
      (h.0, append_section-InOrder (under cur l) (m ∷ ls) h.1)

  insert_at-OrderedIf :
      (cur : List ℕ) (ls : List Line) → InOrder cur ls → OrderedIf cur (insert_at ls kv.section kv)
  unfolding InOrder insert_at
  insert_at-OrderedIf cur [] h = tt
  insert_at-OrderedIf cur (l ∷ ls) h =
      inserted (insert_at ls kv.section kv) (insert_at-OrderedIf (under cur l) ls h.1)
    where
      here :
          (s : Bool)
          → (s && ini_i_equals l.section kv.section) ≡ true
          → ini_i_equals (if s then l.section else cur) kv.section ≡ true
      here true b = b
      here false b = absurd (cc)

      inserted :
          (r : Option (List Line))
          → OrderedIf (under cur l) r
          → OrderedIf cur (elim r [
            | some ls' ↦ some (l ∷ ls')
            | none ↦
                if has_kind l.kind section && ini_i_equals l.section kv.section
                then some (l ∷ into_block ls kv)
                else none
          ])
      inserted (some ls') a = (h.0, a)
      inserted none a =
          by_branch (OrderedIf cur) (has_kind l.kind section && ini_i_equals l.section kv.section) _
            _
            (λ b. (h.0, into_block-InOrder (under cur l) ls (here (has_kind l.kind section) b) h.1))
            (λ b. tt)

insert_kv-InOrder :
    (cur : List ℕ) (d : List Line) (sec key val : List ℕ)
    → InOrder cur d
    → InOrder cur (insert_kv d sec key val)
unfolding insert_kv new_line
insert_kv-InOrder cur d sec key val h =
    pick (insert_at d sec (new_line sec key val))
      (insert_at-OrderedIf (new_line sec key val) refl cur d h)
  where
    pick :
        (r : Option (List Line))
        → OrderedIf cur r
        → InOrder cur (elim r [ some d' ↦ d' | none ↦ append_section d sec (new_line sec key val) ])
    pick (some d') a = a
    pick none a = append_section-InOrder (new_line sec key val) refl cur d h

overwrite-OrderedIf :
    (cur : List ℕ) (d : List Line) (sec key val : List ℕ)
    → InOrder cur d
    → OrderedIf cur (overwrite d sec key val)
unfolding overwrite InOrder
overwrite-OrderedIf cur [] sec key val h = tt
overwrite-OrderedIf cur (l ∷ ls) sec key val h =
    by_branch (OrderedIf cur) (holds l sec key) _ _ (λ b. h)
      (λ b. later (overwrite ls sec key val) (overwrite-OrderedIf (under cur l) ls sec key val h.1))
  where
    later :
        (r : Option (List Line))
        → OrderedIf (under cur l) r
        → OrderedIf cur (elim r [ none ↦ none | some ls' ↦ some (l ∷ ls') ])
    later none a = tt
    later (some ls') a = (h.0, a)

pub set-InOrder :
    (cur : List ℕ) (d : List Line) (sec key val : List ℕ)
    → InOrder cur d
    → InOrder cur (set d sec key val)
unfolding set
set-InOrder cur d sec key val h =
    pick (overwrite d sec key val) (overwrite-OrderedIf cur d sec key val h)
  where
    pick :
        (r : Option (List Line))
        → OrderedIf cur r
        → InOrder cur (elim r [ some d' ↦ d' | none ↦ insert_kv d sec key val ])
    pick (some d') a = a
    pick none a = insert_kv-InOrder cur d sec key val h

pub not_head : (k : Kind) → has_kind k key_value ≡ true → has_kind k section ≡ false
not_head other h = refl
not_head section h = absurd (cc)
not_head key_value h = refl

-- A line that holds a key is no head.
under-holds :
    (cur : List ℕ) (l : Line) (sec key : List ℕ) → holds l sec key ≡ true → under cur l ≡ cur
unfolding holds
under-holds cur l sec key b =
    rw
      (not_head l.kind (
        first (has_kind l.kind key_value) (ini_i_equals l.section sec && ini_i_equals l.key key) b))
      refl
  where
    first : (x y : Bool) → (x && y) ≡ true → x ≡ true
    first x y h = ground (arith, h)

pub del_key-InOrder :
    (cur : List ℕ) (d : List Line) (sec key : List ℕ)
    → InOrder cur d
    → InOrder cur (del_key d sec key)
unfolding del_key InOrder
del_key-InOrder cur [] sec key h = tt
del_key-InOrder cur (l ∷ ls) sec key h =
    by_branch (InOrder cur) (holds l sec key) _ _
      (λ b.
        del_key-InOrder cur ls sec key
          (subst (λ x. InOrder x ls) (under-holds cur l sec key b) h.1))
      (λ b. (h.0, del_key-InOrder (under cur l) ls sec key h.1))

classify-placed :
    (cur raw trimmed : List ℕ)
    → has_kind (classify cur raw trimmed).kind key_value ≡ true
    → ini_i_equals cur (classify cur raw trimmed).section ≡ true
unfolding classify
classify-placed cur raw trimmed =
    by_branch Placed (front_is trimmed b'[' && back_is trimmed b']') _ _ (λ b k. absurd (cc))
      λ b.
        by_branch Placed
          (not (has_none trimmed) && (not (front_is trimmed b';') && not (front_is trimmed b'#'))) _
          _
          (λ c.
            by_option Placed (find_eq trimmed) _ _ (λ e k. absurd (cc))
              (λ p e k. ini_i_equals_refl cur))
          (λ c k. absurd (cc))
  where
    Placed : Line → Type 0
    Placed l = has_kind l.kind key_value ≡ true → ini_i_equals cur l.section ≡ true

load_lines-InOrder : (cur : List ℕ) (raws : List (List ℕ)) → InOrder cur (load_lines cur raws)
unfolding load_lines InOrder
load_lines-InOrder cur [] = tt
load_lines-InOrder cur (raw ∷ raws) =
    let l = classify cur (pop_return raw) (ini_trim (pop_return raw)) in
    (
      classify-placed cur (pop_return raw) (ini_trim (pop_return raw)),
      load_lines-InOrder (under cur l) raws,
    )

pub load-InOrder : (bytes : List ℕ) → InOrder [] (load bytes)
unfolding load
load-InOrder bytes = load_lines-InOrder [] (get_lines (read_file_as_utf8 bytes))

-- Where lines are dropped, what comes next is behind a head of its own.
del_lines-InOrder :
    (dropping : Bool) (cur c : List ℕ) (d : List Line) (sec : List ℕ)
    → InOrder cur d
    → (dropping ≡ false → c ≡ cur)
    → InOrder c (del_lines dropping d sec)
unfolding del_lines InOrder
del_lines-InOrder dropping cur c [] sec h e = tt
del_lines-InOrder dropping cur c (l ∷ ls) sec h e =
    let now : Bool = if has_kind l.kind section then ini_i_equals l.section sec else dropping in
    by_branch (InOrder c) now _ _
      (λ b. del_lines-InOrder now (under cur l) c ls sec h.1 (λ f. absurd (cc)))
      (λ b. (
        (λ k.
            let s = not_head l.kind k in
            let b' : dropping ≡ false = rw s at b in
            subst (λ x. ini_i_equals x l.section ≡ true) (sym (e b')) (h.0 k)),
        del_lines-InOrder now (under cur l) (under c l) ls sec h.1 same,
      ))
  where
    same :
        (if has_kind l.kind section then ini_i_equals l.section sec else dropping) ≡ false
        → under c l ≡ under cur l
    same f = elim (Bool-cases (has_kind l.kind section)) [
      | inl s ↦ rw s refl
      | inr s ↦ rw s (e (rw s at f))
    ]

pub del_section-InOrder :
    (cur : List ℕ) (d : List Line) (sec : List ℕ) → InOrder cur d → InOrder cur (del_section d sec)
unfolding del_section
del_section-InOrder cur d sec h = del_lines-InOrder false cur cur d sec h (λ f. refl)
