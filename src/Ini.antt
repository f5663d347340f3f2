-- ===== src/Ini.antt =====
-- Configuration files: `IniDoc` of src/platform/ini_doc.h. A text is a list of bytes.
pub mod Names
pub mod Lookup
pub mod Order
pub mod Sections
pub mod Saved
mod Tests
use scholar_vpn.Prelude.{
  ℕ, ◌+◌, ◌*◌, ◌/◌, ◌-◌, ◌%◌, ◌^◌, Bool, true, false, not, ◌&&◌, ◌||◌, List, [], ◌∷◌, ◌++◌, Option,
  none, some, ltb, leb, ◌==◌, if◌then◌else◌, length, take, drop, bytes_eq,
}

-- `c - 'A' + 'a'` for a capital.
unfoldable pub to_lower : ℕ → ℕ
to_lower c = if leb b'A' c && leb c b'Z' then c - b'A' + b'a' else c

unfoldable pub ini_i_equals : List ℕ → List ℕ → Bool
ini_i_equals [] [] = true
ini_i_equals [] (b ∷ bs) = false
ini_i_equals (a ∷ s) [] = false
ini_i_equals (a ∷ s) (b ∷ t) = (to_lower a == to_lower b) && ini_i_equals s t

-- " \t\r\n"
abbrev pub is_space : ℕ → Bool
is_space c = (c == b' ') || ((c == 9) || ((c == 13) || (c == 10)))

unfoldable pub trim_left : List ℕ → List ℕ
trim_left [] = []
trim_left (c ∷ cs) = if is_space c then trim_left cs else c ∷ cs

abbrev pub has_none {ℓ} : {A : Type ℓ} → List A → Bool
has_none [] = true
has_none (x ∷ xs) = false

unfoldable pub trim_right : List ℕ → List ℕ
trim_right [] = []
trim_right (c ∷ cs) = let r = trim_right cs in if is_space c && has_none r then [] else c ∷ r

unfoldable pub ini_trim : List ℕ → List ℕ
unfolding trim_left trim_right
ini_trim s = trim_right (trim_left s)

-- One 16-bit unit as UTF-8.
unfoldable pub encode : ℕ → List ℕ
encode cp =
    if ltb cp 0x80
    then cp ∷ []
    else if ltb cp 0x800
    then (0xC0 + cp / 64) ∷ (0x80 + cp % 64) ∷ []
    else (0xE0 + cp / 4096) ∷ (0x80 + cp / 64 % 64) ∷ (0x80 + cp % 64) ∷ []

-- A last byte without its partner is left out.
unfoldable pub utf16_to_utf8 : List ℕ → Bool → List ℕ
unfolding encode
utf16_to_utf8 [] little = []
utf16_to_utf8 (a ∷ []) little = []
utf16_to_utf8 (a ∷ b ∷ src) little =
    encode (if little then a + b * 256 else b + a * 256) ++ utf16_to_utf8 src little

-- The bytes of a file without its mark.
unfoldable pub read_file_as_utf8 : List ℕ → List ℕ
unfolding utf16_to_utf8
read_file_as_utf8 raw =
    if bytes_eq (take 3 raw) (0xEF ∷ 0xBB ∷ 0xBF ∷ [])
    then drop 3 raw
    else if bytes_eq (take 2 raw) (0xFF ∷ 0xFE ∷ [])
    then utf16_to_utf8 (drop 2 raw) true
    else if bytes_eq (take 2 raw) (0xFE ∷ 0xFF ∷ [])
    then utf16_to_utf8 (drop 2 raw) false
    else raw

pub data Kind : Type 0 where
  other section key_value : Kind

pub record Line : Type 0 where
  pub kind : Kind
  pub text : List ℕ
  pub section : List ℕ
  pub key : List ℕ
  pub value : List ℕ

-- `std::getline` until the end.
unfoldable pub get_lines : List ℕ → List (List ℕ)
get_lines [] = []
get_lines (c ∷ cs) =
    let rest = get_lines cs in
    if c == 10 then [] ∷ rest else (elim rest [ [] ↦ (c ∷ []) ∷ [] | l ∷ ls ↦ (c ∷ l) ∷ ls ])

unfoldable pub pop_return : List ℕ → List ℕ
pop_return [] = []
pop_return (c ∷ cs) = let r = pop_return cs in if has_none cs && (c == 13) then [] else c ∷ r

abbrev pub has_kind : Kind → Kind → Bool
has_kind other other = true
has_kind section section = true
has_kind key_value key_value = true
has_kind a b = false

abbrev pub front_is : List ℕ → ℕ → Bool
front_is [] c = false
front_is (x ∷ xs) c = x == c

unfoldable pub back_is : List ℕ → ℕ → Bool
back_is [] c = false
back_is (x ∷ xs) c = let later = back_is xs c in if has_none xs then x == c else later

-- The bytes before the first `=` and behind it.
unfoldable pub find_eq : List ℕ → Option (List ℕ × List ℕ)
find_eq [] = none
find_eq (c ∷ cs) =
    let later = find_eq cs in
    if c == b'=' then some ([], cs) else elim later [ none ↦ none | some p ↦ some (c ∷ p.0, p.1) ]

abbrev pub plain : List ℕ → Line
plain raw = record { kind = other; text = raw; section = []; key = []; value = [] }

-- A line behind its trimming, in the section `cur`.
unfoldable pub classify : List ℕ → List ℕ → List ℕ → Line
unfolding back_is
classify cur raw trimmed =
    if front_is trimmed b'[' && back_is trimmed b']'
    then record (plain raw) { kind = section; section = take (length trimmed - 2) (drop 1 trimmed) }
    else if not (has_none trimmed) && (not (front_is trimmed b';') && not (front_is trimmed b'#'))
    then (elim (find_eq trimmed) [
      | none ↦ plain raw
      | some p ↦ record (plain raw) {
        kind = key_value;
        section = cur;
        key = ini_trim p.0;
        value = ini_trim p.1;
      }
    ])
    else plain raw

unfoldable pub load_lines : List ℕ → List (List ℕ) → List Line
unfolding classify
load_lines cur [] = []
load_lines cur (raw ∷ raws) =
    let l = classify cur (pop_return raw) (ini_trim (pop_return raw)) in
    l ∷ load_lines (if has_kind l.kind section then l.section else cur) raws

unfoldable pub load : List ℕ → List Line
load bytes = load_lines [] (get_lines (read_file_as_utf8 bytes))

-- The bytes that are written.
unfoldable pub save : List Line → List ℕ
save [] = []
save (l ∷ ls) = l.text ++ (10 ∷ save ls)

unfoldable pub is_listed : List (List ℕ) → List ℕ → Bool
is_listed [] s = false
is_listed (x ∷ xs) s = if ini_i_equals x s then true else is_listed xs s

-- `out` are the names so far.
unfoldable pub sections : List Line → List (List ℕ) → List (List ℕ)
unfolding is_listed
sections [] out = out
sections (l ∷ ls) out =
    let skipped = sections ls out in
    let added = sections ls (out ++ (l.section ∷ [])) in
    if has_kind l.kind section && not (is_listed out l.section) then added else skipped

-- The line has the value of a key.
unfoldable pub holds : Line → List ℕ → List ℕ → Bool
holds l sec key =
    has_kind l.kind key_value && (ini_i_equals l.section sec && ini_i_equals l.key key)

unfoldable pub get : List Line → List ℕ → List ℕ → List ℕ → List ℕ
unfolding holds
get [] sec key def = def
get (l ∷ ls) sec key def = if holds l sec key then l.value else get ls sec key def

-- The lines with the value in the first line that holds the key, where there is one.
unfoldable pub overwrite : List Line → List ℕ → List ℕ → List ℕ → Option (List Line)
unfolding holds
overwrite [] sec key val = none
overwrite (l ∷ ls) sec key val =
    if holds l sec key
    then some (record l { value = val; text = l.key ++ (b'=' ∷ val) } ∷ ls)
    else elim (overwrite ls sec key val) [ none ↦ none | some ls' ↦ some (l ∷ ls') ]

unfoldable pub new_line : List ℕ → List ℕ → List ℕ → Line
new_line sec key val = record {
  kind = key_value;
  text = key ++ (b'=' ∷ val);
  section = sec;
  key = key;
  value = val;
}

-- Before the next section, or at the end.
unfoldable pub into_block : List Line → Line → List Line
into_block [] kv = kv ∷ []
into_block (l ∷ ls) kv = if has_kind l.kind section then kv ∷ l ∷ ls else l ∷ into_block ls kv

-- Behind the lines of the last section of that name, where there is one.
unfoldable pub insert_at : List Line → List ℕ → Line → Option (List Line)
unfolding into_block
insert_at [] sec kv = none
insert_at (l ∷ ls) sec kv = elim (insert_at ls sec kv) [
  | some ls' ↦ some (l ∷ ls')
  | none ↦
      if has_kind l.kind section && ini_i_equals l.section sec
      then some (l ∷ into_block ls kv)
      else none
]

abbrev pub head : List ℕ → Line
head sec = record {
  kind = section;
  text = b'[' ∷ (sec ++ (b']' ∷ []));
  section = sec;
  key = [];
  value = [];
}

-- The lines of a new section at the end, behind an empty line.
unfoldable pub append_section : List Line → List ℕ → Line → List Line
append_section [] sec kv = head sec ∷ kv ∷ []
append_section (l ∷ []) sec kv =
    if has_none l.text then l ∷ head sec ∷ kv ∷ [] else l ∷ plain [] ∷ head sec ∷ kv ∷ []
append_section (l ∷ m ∷ ls) sec kv = l ∷ append_section (m ∷ ls) sec kv

unfoldable pub insert_kv : List Line → List ℕ → List ℕ → List ℕ → List Line
unfolding insert_at append_section new_line
insert_kv d sec key val = elim (insert_at d sec (new_line sec key val)) [
  | some d' ↦ d'
  | none ↦ append_section d sec (new_line sec key val)
]

unfoldable pub set : List Line → List ℕ → List ℕ → List ℕ → List Line
unfolding overwrite insert_kv
set d sec key val = elim (overwrite d sec key val) [ some d' ↦ d' | none ↦ insert_kv d sec key val ]

unfoldable pub del_key : List Line → List ℕ → List ℕ → List Line
unfolding holds
del_key [] sec key = []
del_key (l ∷ ls) sec key = if holds l sec key then del_key ls sec key else l ∷ del_key ls sec key

unfoldable pub del_lines : Bool → List Line → List ℕ → List Line
del_lines dropping [] sec = []
del_lines dropping (l ∷ ls) sec =
    let now = if has_kind l.kind section then ini_i_equals l.section sec else dropping in
    let rest = del_lines now ls sec in if now then rest else l ∷ rest

unfoldable pub del_section : List Line → List ℕ → List Line
unfolding del_lines
del_section d sec = del_lines false d sec
