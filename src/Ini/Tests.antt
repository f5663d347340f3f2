-- ===== src/Ini/Tests.antt =====
-- The file "[a]\r\nK = 1\r\n;x\r\n[b]\r\nK=2\r\n".
use scholar_vpn.Prelude.{ℕ, ◌≡◌, refl, true, List, [], ◌∷◌, if◌then◌else◌, bytes_eq}
use scholar_vpn.Ini.{
  load_lines, ini_trim, pop_return, find_eq, to_lower, ini_i_equals, utf16_to_utf8, encode,
  read_file_as_utf8, get_lines, load, save, get, set, del_section,
}
use scholar_vpn.Ini.Names.{same_name}
use scholar_vpn.Ini.Lookup.{get-set}
use scholar_vpn.Ini.Sections.{Edit, to_set, to_del_key, to_del_section, edits, get-del_section}
use scholar_vpn.Ini.Saved.{get-save}

abbrev file : List ℕ
file =
    b'[' ∷ b'a' ∷ b']' ∷ 13 ∷ 10 ∷ b'K' ∷ b' ' ∷ b'=' ∷ b' ' ∷ b'1' ∷ 13 ∷ 10 ∷ b';' ∷ b'x' ∷ 13
    ∷ 10 ∷ b'[' ∷ b'b' ∷ b']' ∷ 13 ∷ 10 ∷ b'K' ∷ b'=' ∷ b'2' ∷ 13 ∷ 10 ∷ []

abbrev one : List ℕ
one = b'1' ∷ []

abbrev two : List ℕ
two = b'2' ∷ []

abbrev a : List ℕ
a = b'a' ∷ []

abbrev b : List ℕ
b = b'b' ∷ []

abbrev k : List ℕ
k = b'k' ∷ []

abbrev new : List ℕ
new = b'n' ∷ []

-- Names are found in whatever case.
first_value : get (load file) (b'A' ∷ []) k [] ≡ one
unfolding get load get_lines read_file_as_utf8 bytes_eq load_lines ini_trim pop_return find_eq
    ini_i_equals to_lower
first_value = refl

-- A new key goes behind the lines of its section, which stay as they were.
new_key :
    save (set (load file) a new two)
    ≡ b'[' ∷ b'a' ∷ b']' ∷ 10 ∷ b'K' ∷ b' ' ∷ b'=' ∷ b' ' ∷ b'1' ∷ 10 ∷ b';' ∷ b'x' ∷ 10 ∷ b'n'
      ∷ b'=' ∷ b'2' ∷ 10 ∷ b'[' ∷ b'b' ∷ b']' ∷ 10 ∷ b'K' ∷ b'=' ∷ b'2' ∷ 10 ∷ []
unfolding set load get_lines read_file_as_utf8 bytes_eq save load_lines ini_trim pop_return find_eq
    ini_i_equals to_lower
new_key = refl

get-set_example :
    get (set (load file) a k two) b k []
    ≡ (if same_name a k b k then two else get (load file) b k [])
get-set_example = get-set (load file) a k two b k []

abbrev changes : List Edit
changes = to_set a new one ∷ to_del_key b k ∷ to_set new k two ∷ to_del_section new ∷ []

get-del_section_example :
    get (del_section (edits (load file) changes) a) a k two
    ≡ (if ini_i_equals a a then two else get (edits (load file) changes) a k two)
get-del_section_example = get-del_section file changes b'a' [] a k two

get-save_example : get (load (save (load file))) b k [] ≡ get (load file) b k []
unfolding load get_lines read_file_as_utf8 bytes_eq save load_lines ini_trim pop_return
get-save_example = get-save file b k [] refl

-- The two halves of a pair stay apart: U+1F600 does not come out as F0 9F 98 80.
surrogates :
    utf16_to_utf8 (0x3D ∷ 0xD8 ∷ 0x00 ∷ 0xDE ∷ []) true
    ≡ 0xED ∷ 0xA0 ∷ 0xBD ∷ 0xED ∷ 0xB8 ∷ 0x80 ∷ []
unfolding utf16_to_utf8 encode
surrogates = refl
