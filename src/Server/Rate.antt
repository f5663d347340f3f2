-- ===== src/Server/Rate.antt =====
-- `UDP::allow_handshake_recompute` of server/UDP/UDP.cpp: how often one source is let through.
use scholar_vpn.Prelude.{
  ℕ, suc, ◌+◌, ◌-◌, ◌*◌, ◌≤◌, ◌≡◌, sym, ap, ◌∙◌, subst, Bool, true, false, List, [], ◌∷◌, ltb, ◌&&◌,
  if◌then◌else◌, length, bytes_eq, bytes_eq_iff, arith, by_branch, on_true, on_false, Bool-cases,
  inl, inr,
}
use scholar_vpn.Server.{Bucket, Server}
use scholar_vpn.Server.Held.{same_key}
use scholar_vpn.Server.Limiter.{
  k_burst, k_token, drop_idle, prune, bucket_of, put_bucket, refill, draw_token,
  allow_handshake_recompute,
}

-- The requests of all sources in their order, each with its source and its time: the server at the end,
-- and how many of the source `ip` were let through.
unfoldable pub requests : Server → List ℕ → List (List ℕ × ℕ) → Server × ℕ
requests sv ip [] = (sv, 0)
requests sv ip ((k, now) ∷ rs) =
    let (sv', ok) = allow_handshake_recompute sv k now in
    let (sv'', n) = requests sv' ip rs in (sv'', if bytes_eq k ip && ok then suc n else n)

-- The times do not go back, and the last one is not behind the end.
abbrev pub Ordered : ℕ → List (List ℕ × ℕ) → ℕ → Type 0
Ordered t [] last = t ≤ last
Ordered t ((k, u) ∷ rs) last = (t ≤ u) × Ordered u rs last

-- At no request the table has more than 4096 sources that were active in the last ten seconds.
abbrev pub Roomy : Server → List (List ℕ × ℕ) → Type 0
Roomy sv [] = Unit
Roomy sv ((k, now) ∷ rs) =
    (length (drop_idle sv.buckets now) ≤ 4096) × Roomy (allow_handshake_recompute sv k now).0 rs

-- What a source has at a time.
abbrev available : List (List ℕ × Bucket) → List ℕ → ℕ → ℕ
available bs ip now = (refill (bucket_of bs ip) now).fiftieths

refill-most : (b : Bucket) (now : ℕ) → (refill b now).fiftieths ≤ k_burst
unfolding refill
refill-most b now = ground arith

refill-later :
    (b : Bucket) (t u : ℕ) → t ≤ u → (refill b u).fiftieths ≤ (refill b t).fiftieths + (u - t)
unfolding refill
refill-later b t u h = ground arith

refill-idle :
    (b : Bucket) (now : ℕ) → ltb 10000 (now - b.last_ms) ≡ true → (refill b now).fiftieths ≡ k_burst
unfolding refill
refill-idle b now h = ground (arith, h)

drop_idle-available :
    (bs : List (List ℕ × Bucket)) (ip : List ℕ) (now : ℕ)
    → available (drop_idle bs now) ip now ≤ available bs ip now
unfolding drop_idle bucket_of
drop_idle-available [] ip now = omega arith
drop_idle-available ((k, b) ∷ bs) ip now =
    by_branch Less (ltb 10000 (now - b.last_ms)) _ _
      (λ h.
        by_branch At (bytes_eq k ip) _ _
          (λ _.
            omega (arith, refill-idle b now h, refill-most (bucket_of (drop_idle bs now) ip) now))
          (λ _. drop_idle-available bs ip now))
      λ _.
        either (bytes_eq k ip) (bucket_of (drop_idle bs now) ip) (bucket_of bs ip)
          (drop_idle-available bs ip now)
  where
    Less : List (List ℕ × Bucket) → Type 0
    Less cs =
        available cs ip now ≤ (refill (if bytes_eq k ip then b else bucket_of bs ip) now).fiftieths

    At : Bucket → Type 0
    At x = available (drop_idle bs now) ip now ≤ (refill x now).fiftieths

    either :
        (c : Bool) (x y : Bucket)
        → (refill x now).fiftieths ≤ (refill y now).fiftieths
        → (refill (if c then b else x) now).fiftieths ≤ (refill (if c then b else y) now).fiftieths
    either true x y h = omega arith
    either false x y h = h

draw-spends :
    (b : Bucket) (now : ℕ)
    → 1 ≤ now
    → let (b', ok) = draw_token (refill b now) in
      (refill b' now).fiftieths + (if ok then k_token else 0) ≤ (refill b now).fiftieths
unfolding refill draw_token
draw-spends b now p = ground arith

bucket_of-put :
    (bs : List (List ℕ × Bucket)) (ip : List ℕ) (b : Bucket) → bucket_of (put_bucket bs ip b) ip ≡ b
unfolding bucket_of put_bucket
bucket_of-put [] ip b = on_true (bytes_eq ip ip) _ _ (same_key ip)
bucket_of-put ((k, old) ∷ bs) ip b =
    by_branch Gives (bytes_eq k ip) _ _ (λ e. on_true (bytes_eq k ip) _ _ e)
      (λ e. on_false (bytes_eq k ip) _ _ e ∙ bucket_of-put bs ip b)
  where
    Gives : List (List ℕ × Bucket) → Type 0
    Gives cs = bucket_of cs ip ≡ b

bucket_of-other :
    (bs : List (List ℕ × Bucket)) (ip k : List ℕ) (b : Bucket)
    → bytes_eq k ip ≡ false
    → bucket_of (put_bucket bs k b) ip ≡ bucket_of bs ip
unfolding bucket_of put_bucket
bucket_of-other [] ip k b h = on_false (bytes_eq k ip) _ _ h
bucket_of-other ((j, old) ∷ bs) ip k b h =
    by_branch Gives (bytes_eq j k) _ _
      (λ e.
        let q = subst (λ x. bytes_eq x ip ≡ false) (sym ((bytes_eq_iff j k).0 e)) h in
        on_false (bytes_eq j ip) _ _ q ∙ sym (on_false (bytes_eq j ip) _ _ q))
      (λ _. ap (λ x. if bytes_eq j ip then old else x) (bucket_of-other bs ip k b h))
  where
    Gives : List (List ℕ × Bucket) → Type 0
    Gives cs = bucket_of cs ip ≡ (if bytes_eq j ip then old else bucket_of bs ip)

prune-available :
    (bs : List (List ℕ × Bucket)) (ip : List ℕ) (now : ℕ)
    → length (drop_idle bs now) ≤ 4096
    → available (prune bs now) ip now ≤ available bs ip now
unfolding prune
prune-available bs ip now r =
    by_branch Less (ltb 4096 (length bs)) _ _
      (λ _.
        by_branch Less (ltb 4096 (length (drop_idle bs now))) _ _
          (λ e. let x = too_many (length (drop_idle bs now)) r e in absurd (cc))
          (λ _. drop_idle-available bs ip now))
      (λ _. omega arith)
  where
    Less : List (List ℕ × Bucket) → Type 0
    Less cs = available cs ip now ≤ available bs ip now

    too_many : (n : ℕ) → n ≤ 4096 → ltb 4096 n ≡ true → true ≡ false
    too_many n h e = ground (arith, h, e)

-- The bucket of `k` after its draw.
abbrev drawn : List (List ℕ × Bucket) → List ℕ → ℕ → Bucket × Bool
drawn bs k now = draw_token (refill (bucket_of bs k) now)

abbrev Spends : List (List ℕ × Bucket) → List ℕ → ℕ → List ℕ → Type 0
Spends bs ip now k =
    available (put_bucket bs k (drawn bs k now).0) ip now
      + (if bytes_eq k ip && (drawn bs k now).1 then k_token else 0)
    ≤ available bs ip now

put-Spends : (bs : List (List ℕ × Bucket)) (ip k : List ℕ) (now : ℕ) → 1 ≤ now → Spends bs ip now k
put-Spends bs ip k now p = elim (Bool-cases (bytes_eq k ip)) [
  | inl e ↦ subst (Spends bs ip now) (sym ((bytes_eq_iff k ip).0 e)) (
      spent (bytes_eq ip ip) (drawn bs ip now).1 _ _ _
        (ap (λ (b : Bucket). (refill b now).fiftieths) (bucket_of-put bs ip (drawn bs ip now).0))
        (draw-spends (bucket_of bs ip) now p))
  | inr e ↦
      unspent (bytes_eq k ip) (drawn bs k now).1 _ _ e (
        ap (λ (b : Bucket). (refill b now).fiftieths)
          (bucket_of-other bs ip k (drawn bs k now).0 e))
]
  where
    spent :
        (c ok : Bool) (x y z : ℕ)
        → x ≡ y
        → y + (if ok then k_token else 0) ≤ z
        → x + (if c && ok then k_token else 0) ≤ z
    spent c ok x y z h k = ground (arith, h, k)

    unspent : (c ok : Bool) (x y : ℕ) → c ≡ false → x ≡ y → x + (if c && ok then k_token else 0) ≤ y
    unspent c ok x y h k = ground (arith, h, k)

-- A request of any source leaves `ip` no more than it had, less what it was let through for.
step-spends :
    (sv : Server) (ip k : List ℕ) (now : ℕ)
    → 1 ≤ now
    → length (drop_idle sv.buckets now) ≤ 4096
    → let (sv', ok) = allow_handshake_recompute sv k now in
      available sv'.buckets ip now + (if bytes_eq k ip && ok then k_token else 0)
      ≤ available sv.buckets ip now
unfolding allow_handshake_recompute
step-spends sv ip k now p r =
    omega (arith, prune-available sv.buckets ip now r, put-Spends (prune sv.buckets now) ip k now p)

Ordered-le : (t : ℕ) (rs : List (List ℕ × ℕ)) (last : ℕ) → Ordered t rs last → t ≤ last
Ordered-le t [] last h = h
Ordered-le t ((k, u) ∷ us) last h = omega (arith, h, Ordered-le u us last h.1)

requests-spend :
    (sv : Server) (ip : List ℕ) (t : ℕ) (rs : List (List ℕ × ℕ)) (last : ℕ)
    → 1 ≤ t
    → Ordered t rs last
    → Roomy sv rs
    → k_token * (requests sv ip rs).1 ≤ available sv.buckets ip t + (last - t)
unfolding requests
requests-spend sv ip t [] last p h r = omega arith
requests-spend sv ip t ((k, u) ∷ rs) last p h r =
    let d = allow_handshake_recompute sv k u in
    total (bytes_eq k ip && d.1) (requests d.0 ip rs).1 (available d.0.buckets ip u)
      (available sv.buckets ip u) (available sv.buckets ip t) t u last h.0
      (Ordered-le u rs last h.1) (refill-later (bucket_of sv.buckets ip) t u h.0)
      (step-spends sv ip k u (omega (arith, p, h)) r.0)
      (requests-spend d.0 ip u rs last (omega (arith, p, h)) h.1 r.1)
  where
    total :
        (ok : Bool) (n f g a t u last : ℕ)
        → t ≤ u
        → u ≤ last
        → g ≤ a + (u - t)
        → f + (if ok then k_token else 0) ≤ g
        → k_token * n ≤ f + (last - u)
        → k_token * (if ok then suc n else n) ≤ a + (last - t)
    total ok n f g a t u last h k b c d = ground arith

-- Let the requests of all sources come in any order, at times from 1 on that do not go back, from any
-- table of buckets, and let at no request more than 4096 sources be active in the last ten seconds, so
-- that the table is never cleared. Then of the requests of one source up to a later time 40 are let
-- through and one more for each fifty milliseconds in between, at most, whether its bucket stays in the
-- table or is dropped as idle.
pub requests-bound :
    (sv : Server) (ip : List ℕ) (t : ℕ) (rs : List (List ℕ × ℕ)) (last : ℕ)
    → 1 ≤ t
    → Ordered t rs last
    → Roomy sv rs
    → k_token * (requests sv ip rs).1 ≤ k_burst + (last - t)
requests-bound sv ip t rs last p h r =
    omega (arith, requests-spend sv ip t rs last p h r, refill-most (bucket_of sv.buckets ip) t)
