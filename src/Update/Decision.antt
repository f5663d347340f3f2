-- ===== src/Update/Decision.antt =====
-- `decide` of src/update/update_policy.cpp on policies whose versions can be read.
use scholar_vpn.Prelude.{
  ℕ, ◌≡◌, ◌⊎◌, inl, inr, ◌↔◌, refl, true, false, List, [], ◌∷◌, ◌++◌, if◌then◌else◌, arith,
}
use scholar_vpn.Update.{
  Compared, older, same, newer, unparsable, compare_version, Policy, Action, nothing, optional,
  forced, decide, is_older, is_unparsable, is_empty,
}
use scholar_vpn.Update.Versions.{
  spelled, Segment, Version, IsVersion, text, Below, compare_version-numbers,
}

-- The same three numbers.
abbrev pub Equal : Version → Version → Type 0
Equal a b =
    (spelled 0 a.major ≡ spelled 0 b.major)
    × (spelled 0 a.minor ≡ spelled 0 b.minor)
    × (spelled 0 a.patch ≡ spelled 0 b.patch)

-- The decision when the policy is complete and the minimum is not empty.
verdict : Compared → Compared → Action
verdict c_latest c_min =
    if is_unparsable c_latest
    then optional
    else if is_older c_min
    then forced
    else if is_older c_latest
    then optional
    else nothing

decide-verdict :
    (p : Policy) (current : List ℕ)
    → p.valid ≡ true
    → is_empty p.latest ≡ false
    → is_empty p.minimum ≡ false
    → (decide p current).0
      ≡ verdict (compare_version current p.latest) (compare_version current p.minimum)
unfolding decide verdict
decide-verdict p current v l m = ground arith

text-nonempty : (a : Version) → IsVersion a → is_empty (text a) ≡ false
text-nonempty a h = nonempty a.major _ h.0
  where
    nonempty : (ds rest : List ℕ) → Segment ds → is_empty (ds ++ rest) ≡ false
    nonempty [] rest h = absurd (omega arith)
    nonempty (c ∷ ds) rest h = refl

readable :
    (a b : Version)
    → IsVersion a
    → IsVersion b
    → is_unparsable (compare_version (text a) (text b)) ≡ false
readable a b ha hb =
    let (o, n, e) = compare_version-numbers a b ha hb in
    elim (three a b) [
      | inl x ↦ rw (o.1 x) refl
      | inr (inl x) ↦ rw (n.1 x) refl
      | inr (inr x) ↦ rw (e.1 x) refl
    ]
  where
    three : (a b : Version) → Below a b ⊎ (Below b a ⊎ Equal a b)
    three a b = ground arith

-- A result that tells the three cases apart.
abbrev Tells : Compared → Type 0 → Type 0 → Type 0 → Type 0
Tells c Lower Higher Same = ((c ≡ older) ↔ Lower) × ((c ≡ newer) ↔ Higher) × ((c ≡ same) ↔ Same)

verdict-Tells :
    (c d : Compared) (Lc Hc Sc Ld Hd Sd : Type 0)
    → is_unparsable c ≡ false
    → is_unparsable d ≡ false
    → Tells c Lc Hc Sc
    → Tells d Ld Hd Sd
    → ((verdict c d ≡ forced) ↔ Ld)
      × ((verdict c d ≡ optional) ↔ ((Hd ⊎ Sd) × Lc))
      × ((verdict c d ≡ nothing) ↔ ((Hd ⊎ Sd) × (Hc ⊎ Sc)))
unfolding verdict
verdict-Tells unparsable d Lc Hc Sc Ld Hd Sd r q f g = absurd (cc)
verdict-Tells older unparsable Lc Hc Sc Ld Hd Sd r q f g = absurd (cc)
verdict-Tells older older Lc Hc Sc Ld Hd Sd r q f g = ground (arith, f, g)
verdict-Tells older same Lc Hc Sc Ld Hd Sd r q f g = ground (arith, f, g)
verdict-Tells older newer Lc Hc Sc Ld Hd Sd r q f g = ground (arith, f, g)
verdict-Tells same unparsable Lc Hc Sc Ld Hd Sd r q f g = absurd (cc)
verdict-Tells same older Lc Hc Sc Ld Hd Sd r q f g = ground (arith, f, g)
verdict-Tells same same Lc Hc Sc Ld Hd Sd r q f g = ground (arith, f, g)
verdict-Tells same newer Lc Hc Sc Ld Hd Sd r q f g = ground (arith, f, g)
verdict-Tells newer unparsable Lc Hc Sc Ld Hd Sd r q f g = absurd (cc)
verdict-Tells newer older Lc Hc Sc Ld Hd Sd r q f g = ground (arith, f, g)
verdict-Tells newer same Lc Hc Sc Ld Hd Sd r q f g = ground (arith, f, g)
verdict-Tells newer newer Lc Hc Sc Ld Hd Sd r q f g = ground (arith, f, g)

-- When a policy is valid and the latest, the minimal and the current version are three segments, each
-- the digits of a number below 65536: the update is forced exactly if the current version is below
-- the minimum; it is optional exactly if it is not below the minimum but below the latest; and there
-- is nothing to do exactly if it is below neither.
pub decide-versions :
    (p : Policy) (current latest minimum : Version)
    → IsVersion current
    → IsVersion latest
    → IsVersion minimum
    → p.valid ≡ true
    → p.latest ≡ text latest
    → p.minimum ≡ text minimum
    → (((decide p (text current)).0 ≡ forced) ↔ Below current minimum)
      × (((decide p (text current)).0 ≡ optional)
          ↔ ((Below minimum current ⊎ Equal current minimum) × Below current latest))
      × (((decide p (text current)).0 ≡ nothing) ↔ (
          (Below minimum current ⊎ Equal current minimum)
          × (Below latest current ⊎ Equal current latest)))
decide-versions p current latest minimum hc hl hm v el em =
    rw
      (
        decide-verdict p (text current) v (rw el (text-nonempty latest hl))
            (rw em (text-nonempty minimum hm)),
        el,
        em,
      )
      (verdict-Tells (compare_version (text current) (text latest))
        (compare_version (text current) (text minimum)) _ _ _ _ _ _ (readable current latest hc hl)
        (readable current minimum hc hm) (compare_version-numbers current latest hc hl)
        (compare_version-numbers current minimum hc hm))
