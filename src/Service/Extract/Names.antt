-- ===== src/Service/Extract/Names.antt =====
-- server/ServiceDB.cpp: the labels of a question, and the name made of them.
use scholar_vpn.Prelude.{
  ℕ, zero, suc, ◌+◌, ◌<◌, ◌≤◌, ◌≡◌, ◌≢◌, refl, ap, sym, ◌∙◌, true, false, List, [], ◌∷◌, ◌++◌, map,
  some, ltb, leb, ◌==◌, length, get_elem?, arith, All, append_assoc, length-append, lt→ltb,
}
use scholar_vpn.Service.Extract.{
  ok, ◌>>=◌, ◌>>◌, need, read, read16, extract_dns_name, tolower, lower_bytes, is_empty, add_label,
  labels,
}

-- The wire form of a name: each label behind its length, and a zero byte.
abbrev pub encode : List (List ℕ) → List ℕ
encode [] = 0 ∷ []
encode (l ∷ ls) = length l ∷ (l ++ encode ls)

-- The labels in lower case, with dots between them, behind what was read before.
abbrev pub joined : List ℕ → List (List ℕ) → List ℕ
joined name [] = name
joined name (l ∷ ls) = joined (add_label name (map tolower l)) ls

get-append :
    (pre : List ℕ) (x : ℕ) (rest : List ℕ) → get_elem? (pre ++ (x ∷ rest)) (length pre) ≡ some x
get-append [] x rest = refl
get-append (p ∷ pre) x rest = get-append pre x rest

read-append : (pre : List ℕ) (x : ℕ) (rest : List ℕ) → read (pre ++ (x ∷ rest)) (length pre) ≡ ok x
unfolding read
read-append pre x rest = rw (get-append pre x rest, read)

-- One byte further.
snoc_length : (pre : List ℕ) (x : ℕ) → length (pre ++ (x ∷ [])) ≡ length pre + 1
snoc_length pre x = omega (arith, length-append pre (x ∷ []))

lower_bytes-append :
    (l pre rest : List ℕ)
    → lower_bytes (pre ++ (l ++ rest)) (length l) (length pre) ≡ ok (map tolower l)
unfolding lower_bytes ◌>>=◌
lower_bytes-append [] pre rest = refl
lower_bytes-append (x ∷ l) pre rest =
    let ih = lower_bytes-append l (pre ++ (x ∷ [])) rest in
    let ih' : lower_bytes (pre ++ (x ∷ (l ++ rest))) (length l) (length pre + 1)
        ≡ ok (map tolower l) =
      rw (append_assoc pre (x ∷ []) (l ++ rest), snoc_length pre x) at ih in
    rw (read-append pre x (l ++ rest), ih', ◌>>=◌)

labels-end :
    (pkt : List ℕ) (p guard : ℕ) (name : List ℕ)
    → ltb p (length pkt) ≡ true
    → read pkt p ≡ ok 0
    → labels pkt (suc guard) p name ≡ ok name
unfolding labels ◌>>=◌ ◌>>◌ need
labels-end pkt p guard name h e = rw (h, e, ◌>>=◌, ◌>>◌, need, labels)

labels-next :
    (pkt : List ℕ) (p guard l : ℕ) (name label : List ℕ)
    → ltb p (length pkt) ≡ true
    → read pkt p ≡ ok l
    → (l == 0) ≡ false
    → leb (p + 1 + l) (length pkt) ≡ true
    → lower_bytes pkt l (p + 1) ≡ ok label
    → labels pkt (suc guard) p name ≡ labels pkt guard (p + 1 + l) (add_label name label)
unfolding labels ◌>>=◌ ◌>>◌ need
labels-next pkt p guard l name label h e z k b =
    rw (h, e, ◌>>=◌, ◌>>◌, need, labels) (rw (z, k, b, ◌>>=◌, ◌>>◌, need))

-- The first byte of a label moved from behind the mark to before it.
regroup :
    (pre l tail rest : List ℕ)
    → (pre ++ (length l ∷ l)) ++ (tail ++ rest) ≡ pre ++ (length l ∷ ((l ++ tail) ++ rest))
regroup pre l tail rest =
    append_assoc pre (length l ∷ l) (tail ++ rest)
    ∙ ap (λ t. pre ++ (length l ∷ t)) (sym (append_assoc l tail rest))

label-lower :
    (pre l tail rest : List ℕ)
    → lower_bytes (pre ++ (length l ∷ ((l ++ tail) ++ rest))) (length l) (length pre + 1)
      ≡ ok (map tolower l)
label-lower pre l tail rest =
    let low = lower_bytes-append l (pre ++ (length l ∷ [])) (tail ++ rest) in
    rw
      (
        append_assoc pre (length l ∷ []) (l ++ (tail ++ rest)),
        snoc_length pre (length l),
        sym (append_assoc l tail rest),
      )
      at low

-- One label, where the rest of the name is read behind it.
labels-label :
    (pre l tail rest name out : List ℕ) (guard : ℕ)
    → l ≢ []
    → labels
        ((pre ++ (length l ∷ l)) ++ (tail ++ rest))
        guard
        (length (pre ++ (length l ∷ l)))
        (add_label name (map tolower l))
      ≡ ok out
    → labels (pre ++ (length l ∷ ((l ++ tail) ++ rest))) (suc guard) (length pre) name ≡ ok out
labels-label pre l tail rest name out guard n ih =
    labels-next pkt (length pre) guard (length l) name (map tolower l)
      (lt→ltb _ _ (omega (arith, size))) (read-append pre (length l) ((l ++ tail) ++ rest))
      (nonempty l n)
      (fits _ _ (omega (arith, size, length-append (l ++ tail) rest, length-append l tail)))
      (label-lower pre l tail rest)
    ∙ ap (λ p. labels pkt guard p (add_label name (map tolower l))) (sym place)
    ∙ ap (λ t. labels t guard (length (pre ++ (length l ∷ l))) (add_label name (map tolower l)))
        (sym (regroup pre l tail rest))
    ∙ ih
  where
    pkt : List ℕ
    pkt = pre ++ (length l ∷ ((l ++ tail) ++ rest))

    place : length (pre ++ (length l ∷ l)) ≡ length pre + 1 + length l
    place = omega (arith, length-append pre (length l ∷ l))

    size : length pkt ≡ length pre + suc (length ((l ++ tail) ++ rest))
    size = length-append pre (length l ∷ ((l ++ tail) ++ rest))

    nonempty : (l : List ℕ) → l ≢ [] → (length l == 0) ≡ false
    nonempty [] n = absurd (n refl)
    nonempty (x ∷ l) n = ground arith

    fits : (a b : ℕ) → a ≤ b → leb a b ≡ true
    fits a b h = ground arith

-- At the place of an encoded name with fewer labels than the guard, none of them empty, the loop
-- gives the labels in lower case, joined by dots.
pub labels-encode :
    (ls : List (List ℕ)) (guard : ℕ) (pre rest name : List ℕ)
    → All (λ l. l ≢ []) ls
    → length ls < guard
    → labels (pre ++ (encode ls ++ rest)) guard (length pre) name ≡ ok (joined name ls)
labels-encode ls zero pre rest name h k = absurd (omega arith)
labels-encode [] (suc guard) pre rest name h k =
    labels-end (pre ++ (0 ∷ rest)) (length pre) guard name
      (lt→ltb _ _ (omega (arith, length-append pre (0 ∷ rest)))) (read-append pre 0 rest)
labels-encode (l ∷ ls) (suc guard) pre rest name h k =
    labels-label pre l (encode ls) rest name (joined (add_label name (map tolower l)) ls) guard h.0
      (labels-encode ls guard (pre ++ (length l ∷ l)) rest (add_label name (map tolower l)) h.1
        (omega arith))

-- The labels in lower case with a dot between two of them.
abbrev pub dotted : List (List ℕ) → List ℕ
dotted [] = []
dotted (l ∷ []) = map tolower l
dotted (l ∷ m ∷ ls) = map tolower l ++ (b'.' ∷ dotted (m ∷ ls))

is_empty-map : (l : List ℕ) → l ≢ [] → is_empty (map tolower l) ≡ false
is_empty-map [] n = absurd (n refl)
is_empty-map (x ∷ l) n = refl

is_empty-append : (a b : List ℕ) → is_empty a ≡ false → is_empty (a ++ b) ≡ false
is_empty-append [] b h = absurd (cc)
is_empty-append (x ∷ a) b h = refl

-- Behind a name that is not empty, the labels come with a dot in front.
joined-cons :
    (name l : List ℕ) (ls : List (List ℕ))
    → is_empty name ≡ false
    → All (λ l. l ≢ []) (l ∷ ls)
    → joined name (l ∷ ls) ≡ name ++ (b'.' ∷ dotted (l ∷ ls))
joined-cons name l [] e h = rw e (append_assoc name (b'.' ∷ []) (map tolower l))
joined-cons name l (m ∷ ls) e h =
    joined-cons (add_label name (map tolower l)) m ls
      (rw e (
        is_empty-append (name ++ (b'.' ∷ [])) (map tolower l) (is_empty-append name (b'.' ∷ []) e)))
      h.1
    ∙ rw e (
        append_assoc (name ++ (b'.' ∷ [])) (map tolower l) (b'.' ∷ dotted (m ∷ ls))
        ∙ append_assoc name (b'.' ∷ []) (map tolower l ++ (b'.' ∷ dotted (m ∷ ls))))

joined-dotted : (ls : List (List ℕ)) → All (λ l. l ≢ []) ls → joined [] ls ≡ dotted ls
joined-dotted [] h = refl
joined-dotted (l ∷ []) h = refl
joined-dotted (l ∷ m ∷ ls) h = joined-cons (map tolower l) m ls (is_empty-map l h.0) h.1

is_empty-dotted : (l : List ℕ) (ls : List (List ℕ)) → l ≢ [] → is_empty (dotted (l ∷ ls)) ≡ false
is_empty-dotted l [] h = is_empty-map l h
is_empty-dotted l (m ∷ ls) h =
    is_empty-append (map tolower l) (b'.' ∷ dotted (m ∷ ls)) (is_empty-map l h)

le-leb : (a b : ℕ) → a ≤ b → leb a b ≡ true
le-leb a b h = ground arith

-- Every guard of the function holds.
dns-run :
    (pkt name : List ℕ) (l4 qd : ℕ)
    → l4 + 8 + 12 ≤ length pkt
    → read16 pkt (l4 + 2) ≡ ok 53
    → read16 pkt (l4 + 8 + 4) ≡ ok qd
    → 1 ≤ qd
    → labels pkt 16 (l4 + 8 + 12) [] ≡ ok name
    → is_empty name ≡ false
    → length name ≤ 253
    → extract_dns_name pkt l4 ≡ ok name
unfolding extract_dns_name ◌>>=◌ ◌>>◌ need
dns-run pkt name l4 qd size port count q e n m =
    rw
      (
        le-leb (l4 + 8) (length pkt) (omega arith),
        le-leb (l4 + 8 + 12) (length pkt) size,
        port,
        ◌>>=◌,
        ◌>>◌,
        need,
        extract_dns_name,
      )
      (rw (count, ◌>>=◌, ◌>>◌, need)
        (rw (le-leb 1 qd q, e, ◌>>=◌, ◌>>◌, need)
          (rw (n, le-leb (length name) 253 m, ◌>>=◌, ◌>>◌, need))))

-- In a packet whose bytes up to the question end 20 bytes behind `l4`, with destination port 53 and
-- one question or more, followed by a name of 1 to 15 labels, none of them empty, of at most 253
-- characters, `extract_dns_name` finds that name: its labels in lower case, with dots between.
pub extract_dns_name-query :
    (pre rest l : List ℕ) (ls : List (List ℕ)) (l4 qd : ℕ)
    → length pre ≡ l4 + 20
    → read16 (pre ++ (encode (l ∷ ls) ++ rest)) (l4 + 2) ≡ ok 53
    → read16 (pre ++ (encode (l ∷ ls) ++ rest)) (l4 + 12) ≡ ok qd
    → 1 ≤ qd
    → All (λ l. l ≢ []) (l ∷ ls)
    → length ls < 15
    → length (dotted (l ∷ ls)) ≤ 253
    → extract_dns_name (pre ++ (encode (l ∷ ls) ++ rest)) l4 ≡ ok (dotted (l ∷ ls))
extract_dns_name-query pre rest l ls l4 qd size port count q h k m =
    dns-run pkt (dotted (l ∷ ls)) l4 qd (omega (arith, length-append pre (encode (l ∷ ls) ++ rest)))
      port (ap (read16 pkt) (place 8 4) ∙ count) q
      (ap (λ p. labels pkt 16 p []) (place 8 12 ∙ sym size)
        ∙ labels-encode (l ∷ ls) 16 pre rest [] h (omega arith)
        ∙ ap ok (joined-dotted (l ∷ ls) h))
      (is_empty-dotted l ls h.0) m
  where
    pkt : List ℕ
    pkt = pre ++ (encode (l ∷ ls) ++ rest)

    place : (a b : ℕ) → l4 + a + b ≡ l4 + (a + b)
    place a b = omega arith
