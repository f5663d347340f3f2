-- ===== src/Server/Limiter.antt =====
-- `UDP::allow_handshake_recompute` of server/UDP/UDP.cpp: a bucket of tokens for each source. The
-- code counts in doubles; here a token is fifty fiftieths, one of which comes back in a millisecond.
use scholar_vpn.Prelude.{
  ℕ, ◌+◌, ◌-◌, min, Bool, true, false, List, [], ◌∷◌, ltb, ◌==◌, if◌then◌else◌, length, bytes_eq,
}
use scholar_vpn.Server.{Bucket, Server}

-- 40 tokens.
abbrev pub k_burst : ℕ
k_burst = 2000

-- One token.
abbrev pub k_token : ℕ
k_token = 50

unfoldable pub drop_idle : List (List ℕ × Bucket) → ℕ → List (List ℕ × Bucket)
drop_idle [] now = []
drop_idle ((ip, b) ∷ bs) now =
    if ltb 10000 (now - b.last_ms) then drop_idle bs now else (ip, b) ∷ drop_idle bs now

unfoldable pub prune : List (List ℕ × Bucket) → ℕ → List (List ℕ × Bucket)
unfolding drop_idle
prune bs now =
    if ltb 4096 (length bs)
    then (if ltb 4096 (length (drop_idle bs now)) then [] else drop_idle bs now)
    else bs

-- A source that is not in the table has an empty bucket of time 0.
unfoldable pub bucket_of : List (List ℕ × Bucket) → List ℕ → Bucket
bucket_of [] ip = record { fiftieths = 0; last_ms = 0 }
bucket_of ((k, b) ∷ bs) ip = if bytes_eq k ip then b else bucket_of bs ip

unfoldable pub put_bucket : List (List ℕ × Bucket) → List ℕ → Bucket → List (List ℕ × Bucket)
put_bucket [] ip b = (ip, b) ∷ []
put_bucket ((k, old) ∷ bs) ip b =
    if bytes_eq k ip then (k, b) ∷ bs else (k, old) ∷ put_bucket bs ip b

-- The bucket at a time that is not before its last one: the clock does not go back.
unfoldable pub refill : Bucket → ℕ → Bucket
refill b now =
    if b.last_ms == 0
    then record { fiftieths = k_burst; last_ms = now }
    else record { fiftieths = min (b.fiftieths + (now - b.last_ms)) k_burst; last_ms = now }

unfoldable pub draw_token : Bucket → Bucket × Bool
draw_token b =
    if ltb b.fiftieths k_token
    then (b, false)
    else (record b { fiftieths = b.fiftieths - k_token }, true)

unfoldable pub allow_handshake_recompute : Server → List ℕ → ℕ → Server × Bool
unfolding refill draw_token
allow_handshake_recompute sv ip now =
    let bs = prune sv.buckets now in
    let (b, ok) = draw_token (refill (bucket_of bs ip) now) in
    (record sv { buckets = put_bucket bs ip b }, ok)
