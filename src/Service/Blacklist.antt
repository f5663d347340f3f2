-- ===== src/Service/Blacklist.antt =====
-- The black list of server/ServiceDB.cpp: `load_blacklist_locked`, `domain_blocked`,
-- `machine_blocked`. A query of the database is a parameter: `none` where it cannot be prepared.
pub mod Laws
mod Tests
use scholar_vpn.Prelude.{
  ℕ, ◌+◌, ◌-◌, Bool, true, false, not, ◌&&◌, ◌||◌, List, [], ◌∷◌, ◌++◌, Option, none, some, ltb,
  leb, ◌==◌, if◌then◌else◌, length, drop, bytes_eq,
}

-- The columns `domain` and `type` of a row; `none` is NULL.
pub record Row : Type 0 where
  pub domain : Option (List ℕ)
  pub kind : Option (List ℕ)

pub record Lists : Type 0 where
  pub domains : List (List ℕ)
  pub ips : List (List ℕ)
  pub machines : List (List ℕ)
  pub loaded_at : ℕ

-- "ip"
abbrev pub ip_kind : List ℕ
ip_kind = b'i' ∷ b'p' ∷ []

-- "machine"
abbrev pub machine_kind : List ℕ
machine_kind = b'm' ∷ b'a' ∷ b'c' ∷ b'h' ∷ b'i' ∷ b'n' ∷ b'e' ∷ []

-- "domain"
abbrev pub domain_kind : List ℕ
domain_kind = b'd' ∷ b'o' ∷ b'm' ∷ b'a' ∷ b'i' ∷ b'n' ∷ []

-- Without a leading "*.".
unfoldable pub strip_star : List ℕ → List ℕ
strip_star [] = []
strip_star (a ∷ []) = a ∷ []
strip_star (a ∷ b ∷ dom) = if a == b'*' && b == b'.' then dom else a ∷ b ∷ dom

unfoldable pub add_domain : List ℕ → List (List ℕ) → List (List ℕ)
add_domain [] ds = ds
add_domain (c ∷ dom) ds = (c ∷ dom) ∷ ds

abbrev pub kind_or_domain : Option (List ℕ) → List ℕ
kind_or_domain none = domain_kind
kind_or_domain (some k) = k

unfoldable pub add_entry : List ℕ → List ℕ → Lists → Lists
add_entry kind d l =
    if bytes_eq kind ip_kind
    then record l { ips = d ∷ l.ips }
    else if bytes_eq kind machine_kind
    then record l { machines = d ∷ l.machines }
    else record l { domains = add_domain (strip_star d) l.domains }

unfoldable pub add_row : Row → Lists → Lists
unfolding add_entry
add_row r l = elim r.domain [ none ↦ l | some d ↦ add_entry (kind_or_domain r.kind) d l ]

unfoldable pub add_rows : List Row → Lists → Lists
add_rows [] l = l
add_rows (r ∷ rs) l = add_rows rs (add_row r l)

-- Seconds; `query` is asked only if the lists are a minute old.
unfoldable pub load : Option (List Row) → ℕ → Lists → Lists
load query now l =
    let empty : Lists = record { domains = []; ips = []; machines = []; loaded_at = now } in
    if ltb (now - l.loaded_at) 60
    then l
    else elim query [ none ↦ empty | some rows ↦ add_rows rows empty ]

-- `count(s) != 0`
unfoldable pub has : List (List ℕ) → List ℕ → Bool
has [] s = false
has (x ∷ xs) s = bytes_eq x s || has xs s

abbrev pub byte_at : List ℕ → ℕ → ℕ
byte_at s i = elim (drop i s) [ [] ↦ 0 | c ∷ r ↦ c ]

-- The domain ends in a dot and the entry.
unfoldable pub is_sub : List ℕ → List ℕ → Bool
is_sub domain e =
    ltb (length e + 1) (length domain)
    && (bytes_eq (drop (length domain - length e) domain) e
        && (byte_at domain (length domain - length e - 1) == b'.'))

unfoldable pub any_sub : List (List ℕ) → List ℕ → Bool
any_sub [] domain = false
any_sub (e ∷ es) domain = is_sub domain e || any_sub es domain

unfoldable pub domain_blocked : Lists → List ℕ → Bool
domain_blocked l [] = false
domain_blocked l (c ∷ domain) =
    if has l.domains (c ∷ domain) then true else any_sub l.domains (c ∷ domain)

unfoldable pub machine_blocked : Lists → List ℕ → Bool
machine_blocked l [] = false
machine_blocked l (c ∷ id) = has l.machines (c ∷ id)
