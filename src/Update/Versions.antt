-- ===== src/Update/Versions.antt =====
-- `compare_version` of src/update/update_policy.cpp on version numbers.
use scholar_vpn.Prelude.{
  ℕ, suc, ◌+◌, ◌-◌, ◌*◌, ◌<◌, ◌≤◌, ◌≡◌, ◌⊎◌, inl, inr, ◌↔◌, refl, ap, ◌∙◌, true, false, List, [],
  ◌∷◌, ◌++◌, Option, some, ltb, ◌==◌, if◌then◌else◌, All, arith,
}
use scholar_vpn.Update.{
  Compared, older, same, newer, is_digit, segment, next_segment, compare_segments, compare_version,
}

-- The number that digits spell behind a number.
abbrev pub spelled : ℕ → List ℕ → ℕ
spelled v [] = v
spelled v (c ∷ cs) = spelled (v * 10 + (c - b'0')) cs

-- Digits, one at least, of a number below 65536.
abbrev pub Segment : List ℕ → Type 0
Segment [] = 0 < 0
Segment (c ∷ ds) = All (λ c. is_digit c ≡ true) (c ∷ ds) × (spelled 0 (c ∷ ds) ≤ 0xFFFF)

spelled_le : (v : ℕ) (ds : List ℕ) → v ≤ spelled v ds
spelled_le v [] = omega arith
spelled_le v (c ∷ ds) = omega (arith, spelled_le (v * 10 + (c - b'0')) ds)

-- The end of a segment: a dot, or nothing.
abbrev After : List ℕ → List ℕ → Type 0
After rest tail = (rest ≡ b'.' ∷ tail) ⊎ ((rest ≡ []) × (tail ≡ []))

segment-digits :
    (v : ℕ) (ds rest tail : List ℕ)
    → All (λ c. is_digit c ≡ true) ds
    → spelled v ds ≤ 0xFFFF
    → After rest tail
    → segment v (ds ++ rest) ≡ some (spelled v ds, tail)
unfolding segment
segment-digits v [] rest tail h k (inl e) = rw e refl
segment-digits v [] rest tail h k (inr (e, f)) = rw (e, f) refl
segment-digits v (c ∷ ds) rest tail h k a =
    let ih = segment-digits (v * 10 + (c - b'0')) ds rest tail h.1 k a in
    let small : v * 10 + (c - b'0') ≤ 0xFFFF =
      omega (arith, k, spelled_le (v * 10 + (c - b'0')) ds) in
    step v c (ds ++ rest) (some (spelled v (c ∷ ds), tail)) h.0 small ih
  where
    step :
        (v c : ℕ) (cs : List ℕ) (r : Option (ℕ × List ℕ))
        → is_digit c ≡ true
        → v * 10 + (c - b'0') ≤ 0xFFFF
        → segment (v * 10 + (c - b'0')) cs ≡ r
        → segment v (c ∷ cs) ≡ r
    step v c cs r d b e = ground arith

next_segment-digits :
    (ds rest tail : List ℕ)
    → Segment ds
    → After rest tail
    → next_segment (ds ++ rest) ≡ some (spelled 0 ds, tail)
unfolding next_segment
next_segment-digits [] rest tail h a = absurd (omega arith)
next_segment-digits (c ∷ ds) rest tail h a =
    rw (no_dot c h.0.0) (segment-digits 0 (c ∷ ds) rest tail h.0 h.1 a)
  where
    no_dot : (c : ℕ) → is_digit c ≡ true → (c == b'.') ≡ false
    no_dot c h = ground arith

-- Three segments with dots between.
pub record Version : Type 0 where
  pub major : List ℕ
  pub minor : List ℕ
  pub patch : List ℕ

abbrev pub IsVersion : Version → Type 0
IsVersion a = Segment a.major × Segment a.minor × Segment a.patch

abbrev pub text : Version → List ℕ
text a = a.major ++ (b'.' ∷ (a.minor ++ (b'.' ∷ (a.patch ++ []))))

-- The first segments that differ are smaller on the left.
abbrev pub Below : Version → Version → Type 0
Below a b =
    (spelled 0 a.major < spelled 0 b.major)
    ⊎ ((spelled 0 a.major ≡ spelled 0 b.major)
        × ((spelled 0 a.minor < spelled 0 b.minor)
            ⊎ ((spelled 0 a.minor ≡ spelled 0 b.minor) × (spelled 0 a.patch < spelled 0 b.patch))))

compare-segments :
    (i : ℕ) (a b ra rb ta tb : List ℕ)
    → Segment a
    → Segment b
    → After ra ta
    → After rb tb
    → compare_segments (suc i) (a ++ ra) (b ++ rb) ≡ (
        if spelled 0 a == spelled 0 b
        then compare_segments i ta tb
        else if ltb (spelled 0 a) (spelled 0 b)
        then older
        else newer)
unfolding compare_segments
compare-segments i a b ra rb ta tb ha hb ea eb =
    rw (next_segment-digits a ra ta ha ea, next_segment-digits b rb tb hb eb, compare_segments) refl

compare_version-start :
    (a b ra rb : List ℕ)
    → Segment a
    → Segment b
    → compare_version (a ++ ra) (b ++ rb) ≡ compare_segments 3 (a ++ ra) (b ++ rb)
unfolding compare_version
compare_version-start [] b ra rb ha hb = absurd (omega arith)
compare_version-start (x ∷ a) [] ra rb ha hb = absurd (omega arith)
compare_version-start (x ∷ a) (y ∷ b) ra rb ha hb = refl

abbrev verdict : ℕ → ℕ → Compared → Compared
verdict x y c = if x == y then c else if ltb x y then older else newer

compare_version-verdicts :
    (a b : Version)
    → IsVersion a
    → IsVersion b
    → compare_version (text a) (text b)
      ≡ verdict (spelled 0 a.major) (spelled 0 b.major) (
          verdict
            (spelled 0 a.minor)
            (spelled 0 b.minor)
            (verdict (spelled 0 a.patch) (spelled 0 b.patch) same))
unfolding compare_segments
compare_version-verdicts a b ha hb =
    compare_version-start a.major b.major _ _ ha.0 hb.0
    ∙ compare-segments 2 a.major b.major _ _ _ _ ha.0 hb.0 (inl refl) (inl refl)
    ∙ ap (verdict (spelled 0 a.major) (spelled 0 b.major)) (
        compare-segments 1 a.minor b.minor _ _ _ _ ha.1 hb.1 (inl refl) (inl refl)
        ∙ ap (verdict (spelled 0 a.minor) (spelled 0 b.minor)) (
            compare-segments 0 a.patch b.patch [] [] [] [] ha.2 hb.2 (inr (refl, refl))
              (inr (refl, refl))))

-- Two versions of three segments, each the digits of a number below 65536, compare as the triples of
-- their numbers: `older` if the first number that differs is smaller, `newer` if it is larger, `same`
-- if none differs.
pub compare_version-numbers :
    (a b : Version)
    → IsVersion a
    → IsVersion b
    → ((compare_version (text a) (text b) ≡ older) ↔ Below a b)
      × ((compare_version (text a) (text b) ≡ newer) ↔ Below b a)
      × ((compare_version (text a) (text b) ≡ same) ↔ (
          (spelled 0 a.major ≡ spelled 0 b.major)
          × (spelled 0 a.minor ≡ spelled 0 b.minor)
          × (spelled 0 a.patch ≡ spelled 0 b.patch)))
compare_version-numbers a b ha hb = rw (compare_version-verdicts a b ha hb) (cases _ _ _ _ _ _)
  where
    cases :
        (x y z x' y' z' : ℕ)
        → let c = verdict x x' (verdict y y' (verdict z z' same)) in
          ((c ≡ older) ↔ ((x < x') ⊎ ((x ≡ x') × ((y < y') ⊎ ((y ≡ y') × (z < z'))))))
          × ((c ≡ newer) ↔ ((x' < x) ⊎ ((x' ≡ x) × ((y' < y) ⊎ ((y' ≡ y) × (z' < z))))))
          × ((c ≡ same) ↔ ((x ≡ x') × (y ≡ y') × (z ≡ z')))
    cases x y z x' y' z' = ground arith
