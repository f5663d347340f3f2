-- ===== src/Ini/Names.antt =====
-- Names of sections and keys in src/platform/ini_doc.h, which differ in case at most.
use scholar_vpn.Prelude.{
  ℕ, ◌≡◌, refl, sym, ◌∙◌, Bool, true, false, ◌&&◌, List, [], ◌∷◌, ◌==◌, ==_iff, if◌then◌else◌,
  arith,
}
use scholar_vpn.Ini.{Line, key_value, has_kind, to_lower, ini_i_equals, holds}

pub ini_i_equals_refl : (a : List ℕ) → ini_i_equals a a ≡ true
unfolding ini_i_equals
ini_i_equals_refl [] = refl
ini_i_equals_refl (x ∷ a) = rw ((==_iff (to_lower x) (to_lower x)).1 refl, ini_i_equals_refl a) refl

-- Names that are equal but for their case are told from others in the same way.
pub ini_i_equals-same :
    (a b c : List ℕ) → ini_i_equals a b ≡ true → ini_i_equals a c ≡ ini_i_equals b c
unfolding ini_i_equals
ini_i_equals-same [] [] c h = refl
ini_i_equals-same [] (y ∷ b) c h = absurd (cc)
ini_i_equals-same (x ∷ a) [] c h = absurd (cc)
ini_i_equals-same (x ∷ a) (y ∷ b) [] h = refl
ini_i_equals-same (x ∷ a) (y ∷ b) (z ∷ c) h =
    let (p, q) = both (to_lower x == to_lower y) (ini_i_equals a b) h in
    rw ((==_iff (to_lower x) (to_lower y)).0 p, ini_i_equals-same a b c q) refl
  where
    both : (u v : Bool) → (u && v) ≡ true → (u ≡ true) × (v ≡ true)
    both u v h = ground arith

-- The pair of names is the same one but for case.
abbrev pub same_name : List ℕ → List ℕ → List ℕ → List ℕ → Bool
same_name sec key sec' key' = ini_i_equals sec sec' && ini_i_equals key key'

-- A line that holds one key holds another one if they are the same.
pub holds-same :
    (l : Line) (sec key sec' key' : List ℕ)
    → holds l sec key ≡ true
    → holds l sec' key' ≡ same_name sec key sec' key'
unfolding holds
holds-same l sec key sec' key' h =
    let (k, a, b) =
      three (has_kind l.kind key_value) (ini_i_equals l.section sec) (ini_i_equals l.key key) h in
    rw (k, ini_i_equals-same l.section sec sec' a, ini_i_equals-same l.key key key' b) refl
  where
    three : (u v w : Bool) → (u && (v && w)) ≡ true → (u ≡ true) × (v ≡ true) × (w ≡ true)
    three u v w h = ground arith

pub ini_i_equals-sym : (a b : List ℕ) → ini_i_equals a b ≡ ini_i_equals b a
unfolding ini_i_equals
ini_i_equals-sym [] [] = refl
ini_i_equals-sym [] (y ∷ b) = refl
ini_i_equals-sym (x ∷ a) [] = refl
ini_i_equals-sym (x ∷ a) (y ∷ b) =
    rw (ini_i_equals-sym a b) (swap (to_lower x) (to_lower y) (ini_i_equals b a))
  where
    swap : (u v : ℕ) (r : Bool) → ((u == v) && r) ≡ ((v == u) && r)
    swap u v r = ground (arith, ==_iff u v, ==_iff v u)

-- The same key under another spelling.
pub holds-renamed :
    (l : Line) (sec key sec' key' : List ℕ)
    → same_name sec key sec' key' ≡ true
    → holds l sec key ≡ holds l sec' key'
unfolding holds
holds-renamed l sec key sec' key' s =
    let (a, b) = both (ini_i_equals sec sec') (ini_i_equals key key') s in
    rw (right l.section sec sec' a, right l.key key key' b) refl
  where
    both : (u v : Bool) → (u && v) ≡ true → (u ≡ true) × (v ≡ true)
    both u v h = ground arith

    right : (c a b : List ℕ) → ini_i_equals a b ≡ true → ini_i_equals c a ≡ ini_i_equals c b
    right c a b h = ini_i_equals-sym c a ∙ ini_i_equals-same a b c h ∙ ini_i_equals-sym b c

pub covered :
    (b c : Bool) (x y z : List ℕ)
    → b ≡ c
    → (if b then x else z) ≡ (if c then x else (if b then y else z))
covered true c x y z e = rw (sym e) refl
covered false c x y z e = rw (sym e) refl
