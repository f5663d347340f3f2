-- ===== src/Service/Blacklist/Laws.antt =====
-- The black list of server/ServiceDB.cpp: which domains it blocks, told by the rows of the table.
use scholar_vpn.Prelude.{
  ℕ, zero, suc, ◌+◌, ◌-◌, ◌<◌, ◌≤◌, ◌≡◌, ◌≢◌, ◌⊎◌, inl, inr, ◌↔◌, refl, sym, ap, ap₂, ◌∙◌, true,
  false, ◌&&◌, List, [], ◌∷◌, ◌++◌, Option, none, some, ltb, ◌==◌, length, drop, bytes_eq,
  bytes_eq_iff, arith, Bool-cases, ==_iff, ltb→lt, length-append, drop-append,
}
use scholar_vpn.Service.Blacklist.{
  Row, Lists, ip_kind, machine_kind, strip_star, add_domain, kind_or_domain, add_entry, add_row,
  add_rows, load, has, byte_at, is_sub, any_sub, domain_blocked,
}

-- The domain is the entry, or something and a dot before the entry.
abbrev pub Covers : List ℕ → List ℕ → Type 0
Covers e d = (d ≡ e) ⊎ ((sub : List ℕ) × (sub ≢ []) × (d ≡ sub ++ (b'.' ∷ e)))

-- Some element satisfies the condition.
abbrev pub Some {ℓ} : {A : Type ℓ} → (A → Type 0) → List A → Type 0
Some P [] = ⊥
Some P (x ∷ xs) = P x ⊎ Some P xs

byte_at-append : (s : List ℕ) (c : ℕ) (r : List ℕ) → byte_at (s ++ (c ∷ r)) (length s) ≡ c
byte_at-append s c r = rw (drop-append s (c ∷ r), byte_at) refl

-- A list cut at a place.
cut :
    (n : ℕ) (d : List ℕ)
    → n < length d
    → (s : List ℕ) × (c : ℕ) × (r : List ℕ) × (d ≡ s ++ (c ∷ r)) × (length s ≡ n)
cut n [] h = absurd (omega arith)
cut zero (x ∷ d) h = ([], x, d, refl, refl)
cut (suc n) (x ∷ d) h =
    let (s, c, r, e, k) = cut n d (omega arith) in (x ∷ s, c, r, ap (◌∷◌ x) e, ap suc k)

drop-next : (s : List ℕ) (c : ℕ) (r : List ℕ) → drop (suc (length s)) (s ++ (c ∷ r)) ≡ r
drop-next [] c r = refl
drop-next (x ∷ s) c r = drop-next s c r

-- The test on a domain that is cut where the entry would begin.
is_sub-cut :
    (s : List ℕ) (c : ℕ) (r e : List ℕ)
    → length r ≡ length e
    → is_sub (s ++ (c ∷ r)) e ≡ (ltb 0 (length s) && (bytes_eq r e && (c == b'.')))
unfolding is_sub
is_sub-cut s c r e k = ap₂ (◌&&◌) long (
    ap₂ (◌&&◌)
      (ap (λ n. bytes_eq (drop n (s ++ (c ∷ r))) e) place
        ∙ ap (λ t. bytes_eq t e) (drop-next s c r))
      (ap (λ n. byte_at (s ++ (c ∷ r)) n == b'.') before
        ∙ ap (λ x. x == b'.') (byte_at-append s c r)))
  where
    size : length (s ++ (c ∷ r)) ≡ length s + suc (length r)
    size = length-append s (c ∷ r)

    place : length (s ++ (c ∷ r)) - length e ≡ suc (length s)
    place = omega (arith, size)

    before : length (s ++ (c ∷ r)) - length e - 1 ≡ length s
    before = omega (arith, size)

    long : ltb (length e + 1) (length (s ++ (c ∷ r))) ≡ ltb 0 (length s)
    long = ground (arith, size)

long_enough : (d e : List ℕ) → is_sub d e ≡ true → length e + 1 < length d
unfolding is_sub
long_enough d e h = elim (Bool-cases (ltb (length e + 1) (length d))) [
  | inl k ↦ ltb→lt _ _ k
  | inr k ↦ absurd (ground (arith, h, k))
]

parts_of :
    (s r e : List ℕ) (c : ℕ)
    → (ltb 0 (length s) && (bytes_eq r e && (c == b'.'))) ≡ true
    → (ltb 0 (length s) ≡ true) × (r ≡ e) × (c ≡ b'.')
parts_of s r e c h = ground (arith, bytes_eq_iff r e, ==_iff c b'.')

is_sub_iff :
    (d e : List ℕ) → (is_sub d e ≡ true) ↔ ((sub : List ℕ) × (sub ≢ []) × (d ≡ sub ++ (b'.' ∷ e)))
is_sub_iff d e = ((λ h. to h), λ x. from x.0 x.1 x.2)
  where
    nonempty : (s : List ℕ) → ltb 0 (length s) ≡ true → s ≢ []
    nonempty [] h = absurd (ground arith)
    nonempty (x ∷ s) h = λ q. cc

    long : (s : List ℕ) → s ≢ [] → ltb 0 (length s) ≡ true
    long [] n = absurd (n refl)
    long (x ∷ s) n = ground arith

    to : is_sub d e ≡ true → (sub : List ℕ) × (sub ≢ []) × (d ≡ sub ++ (b'.' ∷ e))
    to h =
        let (s, c, r, q, k) = cut (length d - length e - 1) d (omega (arith, long_enough d e h)) in
        let size : length r ≡ length e =
          omega (arith, long_enough d e h, ap length q, length-append s (c ∷ r), k) in
        let (a, b, x) = parts_of s r e c (sym (is_sub-cut s c r e size) ∙ (rw q at h)) in
        (s, nonempty s a, q ∙ ap₂ (λ y t. s ++ (y ∷ t)) x b)

    from : (sub : List ℕ) → sub ≢ [] → d ≡ sub ++ (b'.' ∷ e) → is_sub d e ≡ true
    from sub n q =
        rw q (is_sub-cut sub b'.' e e refl ∙ rw (long sub n, (bytes_eq_iff e e).1 refl) refl)

any_sub_iff :
    (es : List (List ℕ)) (d : List ℕ) → (any_sub es d ≡ true) ↔ Some (λ e. is_sub d e ≡ true) es
unfolding any_sub
any_sub_iff [] d = ground arith
any_sub_iff (e ∷ es) d = ground (arith, any_sub_iff es d)

has_iff : (es : List (List ℕ)) (d : List ℕ) → (has es d ≡ true) ↔ Some (λ e. d ≡ e) es
unfolding has
has_iff [] d = ground arith
has_iff (e ∷ es) d = ground (arith, has_iff es d, bytes_eq_iff e d)

-- The row is an entry for domains, and the domain is covered by it.
abbrev pub Blocks : List ℕ → Row → Type 0
Blocks d r =
    (s : List ℕ) × (r.domain ≡ some s)
    × (bytes_eq (kind_or_domain r.kind) ip_kind ≡ false)
    × (bytes_eq (kind_or_domain r.kind) machine_kind ≡ false)
    × (strip_star s ≢ [])
    × Covers (strip_star s) d

Covers-iff :
    (es : List (List ℕ)) (d : List ℕ)
    → ((has es d ≡ true) ⊎ (any_sub es d ≡ true)) ↔ Some (λ e. Covers e d) es
unfolding has any_sub
Covers-iff [] d = ground arith
Covers-iff (e ∷ es) d = ground (arith, Covers-iff es d, bytes_eq_iff e d, is_sub_iff d e)

domain_blocked_iff :
    (l : Lists) (d : List ℕ)
    → d ≢ []
    → (domain_blocked l d ≡ true) ↔ Some (λ e. Covers e d) l.domains
unfolding domain_blocked
domain_blocked_iff l [] n = absurd (n refl)
domain_blocked_iff l (c ∷ d) n = ground (arith, Covers-iff l.domains (c ∷ d))

add_domain-Some :
    (P : List ℕ → Type 0) (x : List ℕ) (ds : List (List ℕ))
    → Some P (add_domain x ds) ↔ (((x ≢ []) × P x) ⊎ Some P ds)
unfolding add_domain
add_domain-Some P [] ds = ((λ h. inr h), λ h. elim h [ inl k ↦ absurd (k.0 refl) | inr k ↦ k ])
add_domain-Some P (c ∷ x) ds = (
  (λ h. elim h [ inl k ↦ inl ((λ e. cc), k) | inr k ↦ inr k ]),
  λ h. elim h [ inl k ↦ inl k.1 | inr k ↦ inr k ],
)

-- What an entry of a given kind adds to the domains.
add_entry-domains :
    (kind s : List ℕ) (l : Lists) (d : List ℕ)
    → Some (λ e. Covers e d) (add_entry kind s l).domains ↔ (
        ((bytes_eq kind ip_kind ≡ false)
          × (bytes_eq kind machine_kind ≡ false)
          × (strip_star s ≢ [])
          × Covers (strip_star s) d)
        ⊎ Some (λ e. Covers e d) l.domains)
unfolding add_entry
add_entry-domains kind s l d = elim (Bool-cases (bytes_eq kind ip_kind)) [
  | inl h ↦ rw h ((λ x. inr x), λ x. elim x [ inl y ↦ absurd (cc) | inr y ↦ y ])
  | inr h ↦ elim (Bool-cases (bytes_eq kind machine_kind)) [
    | inl k ↦ rw (h, k) ((λ x. inr x), λ x. elim x [ inl y ↦ absurd (cc) | inr y ↦ y ])
    | inr k ↦
        let both = add_domain-Some (λ e. Covers e d) (strip_star s) l.domains in
        rw (h, k)
          (
            (λ x. elim (both.0 x) [ inl y ↦ inl (refl, refl, y.0, y.1) | inr y ↦ inr y ]),
            λ x. both.1 (elim x [ inl y ↦ inl (y.2, y.3) | inr y ↦ inr y ]),
          )
  ]
]

fields-domains :
    (o k : Option (List ℕ)) (l : Lists) (d : List ℕ)
    → Some (λ e. Covers e d) (add_row (record { domain = o; kind = k }) l).domains
      ↔ (Blocks d (record { domain = o; kind = k }) ⊎ Some (λ e. Covers e d) l.domains)
unfolding add_row
fields-domains none k l d = ((λ x. inr x), λ x. elim x [ inl y ↦ absurd (cc (y.1)) | inr y ↦ y ])
fields-domains (some s) k l d =
    let one = add_entry-domains (kind_or_domain k) s l d in
    (
      (λ x. elim (one.0 x) [ inl y ↦ inl (s, refl, y.0, y.1, y.2, y.3) | inr y ↦ inr y ]),
      λ x. one.1 (elim x [
        | inl y ↦ let (n, c) = same_text s y.0 y.1 y.4 y.5 in inl (y.2, y.3, n, c)
        | inr y ↦ inr y
      ]),
    )
  where
    same_text :
        (s t : List ℕ)
        → some s ≡ some t
        → strip_star t ≢ []
        → Covers (strip_star t) d
        → (strip_star s ≢ []) × Covers (strip_star s) d
    same_text s t e n c = let e' : s ≡ t = cc in rw e' (n, c)

add_row-domains :
    (r : Row) (l : Lists) (d : List ℕ)
    → Some (λ e. Covers e d) (add_row r l).domains ↔ (Blocks d r ⊎ Some (λ e. Covers e d) l.domains)
add_row-domains r l d = fields-domains r.domain r.kind l d

add_rows-domains :
    (rs : List Row) (l : Lists) (d : List ℕ)
    → Some (λ e. Covers e d) (add_rows rs l).domains
      ↔ (Some (Blocks d) rs ⊎ Some (λ e. Covers e d) l.domains)
unfolding add_rows
add_rows-domains [] l d = ((λ x. inr x), λ x. elim x [ inl y ↦ absurd y | inr y ↦ y ])
add_rows-domains (r ∷ rs) l d =
    let rest = add_rows-domains rs (add_row r l) d in
    let one = add_row-domains r l d in ground (arith, rest, one)

-- The lists at the start of a query.
abbrev emptied : ℕ → Lists
emptied now = record { domains = []; ips = []; machines = []; loaded_at = now }

load-old :
    (rows : List Row) (now : ℕ) (l : Lists)
    → 60 ≤ now - l.loaded_at
    → load (some rows) now l ≡ add_rows rows (emptied now)
unfolding load
load-old rows now l h = rw (fresh_no (now - l.loaded_at) h) refl
  where
    fresh_no : (a : ℕ) → 60 ≤ a → ltb a 60 ≡ false
    fresh_no a h = ground arith

-- When the lists are a minute old or more and the query of the table gives `rows`, a domain that is
-- not empty is blocked exactly if some row is an entry for domains (its kind is neither `ip` nor
-- `machine`) whose text without a leading `*.` is not empty and covers the domain: it is the domain,
-- or the domain is something, a dot and that text.
pub domain_blocked-rows :
    (rows : List Row) (now : ℕ) (l : Lists) (d : List ℕ)
    → 60 ≤ now - l.loaded_at
    → d ≢ []
    → (domain_blocked (load (some rows) now l) d ≡ true) ↔ Some (Blocks d) rows
domain_blocked-rows rows now l d old n = rw (load-old rows now l old) (
    iff (domain_blocked_iff (add_rows rows (emptied now)) d n)
      (add_rows-domains rows (emptied now) d))
  where
    iff : {A B C : Type 0} → A ↔ B → B ↔ (C ⊎ ⊥) → A ↔ C
    iff f g = ground (arith, f, g)
