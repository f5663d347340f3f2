-- ===== src/Service/Extract.antt =====
-- `extract_domain` of server/ServiceDB.cpp with `extract_dns_name` and `extract_sni`. Each access to
-- the packet is a read that may miss, so that a missed one shows as a fault.
pub mod Safety
pub mod Names
mod Tests
use scholar_vpn.Prelude.{
  ℕ, zero, suc, ◌+◌, ◌-◌, ◌*◌, ◌/◌, ◌%◌, Bool, true, false, ◌&&◌, ◌||◌, not, List, [], ◌∷◌, ◌++◌,
  Option, none, some, ltb, leb, ◌==◌, if◌then◌else◌, length, get_elem?,
}

-- A fault is a read outside of the packet, or a loop that does not end.
pub data Scan {ℓ} (A : Type ℓ) : Type ℓ where
  fault : Scan A
  reject : Scan A
  ok : A → Scan A

infixl 5 ◌>>=◌ ◌>>◌
unfoldable pub ◌>>=◌ {ℓ κ} : {A : Type ℓ} {B : Type κ} → Scan A → (A → Scan B) → Scan B
fault >>= f = fault
reject >>= f = reject
ok a >>= f = f a

unfoldable pub ◌>>◌ {ℓ κ} : {A : Type ℓ} {B : Type κ} → Scan A → Scan B → Scan B
unfolding ◌>>=◌
m >> k = m >>= λ _. k

-- `if (!c) return false;`
unfoldable pub need : Bool → Scan (Unit {0})
need true = ok tt
need false = reject

-- `pkt[i]`
unfoldable pub read : List ℕ → ℕ → Scan ℕ
read pkt i = elim (get_elem? pkt i) [ none ↦ fault | some b ↦ ok b ]

-- Two bytes, the high one first.
unfoldable pub read16 : List ℕ → ℕ → Scan ℕ
read16 pkt i = do hi ← read pkt i; lo ← read pkt (i + 1); ok (hi * 256 + lo)

-- `tolower` in the "C" locale.
unfoldable pub tolower : ℕ → ℕ
tolower c = if leb b'A' c && leb c b'Z' then c + 32 else c

-- The `n` bytes from `i` on, in lower case.
unfoldable pub lower_bytes : List ℕ → ℕ → ℕ → Scan (List ℕ)
lower_bytes pkt zero i = ok []
lower_bytes pkt (suc n) i = do
  b ← read pkt i
  rest ← lower_bytes pkt n (i + 1)
  ok (tolower b ∷ rest)

abbrev pub is_empty : List ℕ → Bool
is_empty [] = true
is_empty (x ∷ xs) = false

-- `if (!name.empty()) name += '.'`, and the label.
abbrev pub add_label : List ℕ → List ℕ → List ℕ
add_label name label = (if is_empty name then name else name ++ (b'.' ∷ [])) ++ label

-- The labels from `p` on, `guard` of them at most.
unfoldable pub labels : List ℕ → ℕ → ℕ → List ℕ → Scan (List ℕ)
labels pkt zero p name = ok name
labels pkt (suc guard) p name = do
  need (ltb p (length pkt))
  l ← read pkt p
  elim (l == 0) [
    | true ↦ ok name
    | false ↦ do
      need (leb (p + 1 + l) (length pkt))
      label ← lower_bytes pkt l (p + 1)
      labels pkt guard (p + 1 + l) (add_label name label)
  ]

unfoldable pub extract_dns_name : List ℕ → ℕ → Scan (List ℕ)
extract_dns_name pkt l4 = do
  need (leb (l4 + 8) (length pkt))
  dport ← read16 pkt (l4 + 2)
  need (dport == 53)
  need (leb (l4 + 8 + 12) (length pkt))
  qd ← read16 pkt (l4 + 8 + 4)
  need (leb 1 qd)
  name ← labels pkt 16 (l4 + 8 + 12) []
  need (not (is_empty name) && leb (length name) 253)
  ok name

-- The host of a server_name extension of `el` bytes at `p`; positions count from `t` on.
unfoldable pub server_name : List ℕ → ℕ → ℕ → ℕ → ℕ → Scan (List ℕ)
server_name pkt t ext_end p el = do
  kind ← read pkt (t + (p + 2))
  need (kind == 0)
  hl ← read16 pkt (t + (p + 3))
  need (ltb 0 hl && (leb (5 + hl) el && leb (p + 5 + hl) ext_end))
  host ← lower_bytes pkt hl (t + (p + 5))
  need (not (is_empty host))
  ok host

-- `while (p + 4 <= extEnd)`, with fuel.
unfoldable pub extensions : List ℕ → ℕ → ℕ → ℕ → ℕ → Scan (List ℕ)
extensions pkt t ext_end zero p = fault
extensions pkt t ext_end (suc fuel) p = do
  need (leb (p + 4) ext_end)
  et ← read16 pkt (t + p)
  el ← read16 pkt (t + (p + 2))
  need (leb el (ext_end - (p + 4)))
  elim (et == 0 && leb 5 el) [
    | true ↦ server_name pkt t ext_end (p + 4) el
    | false ↦ extensions pkt t ext_end fuel (p + 4 + el)
  ]

-- From the session id of the ClientHello on: `p` is its place, `tlen` the length of the payload.
unfoldable pub client_hello : List ℕ → ℕ → ℕ → ℕ → Scan (List ℕ)
client_hello pkt t tlen p = do
  need (leb (p + 1) tlen)
  sid ← read pkt (t + p)
  need (leb (p + 1 + sid + 2) tlen)
  cs ← read16 pkt (t + (p + 1 + sid))
  need (leb (p + 1 + sid + 2 + cs + 1) tlen)
  comp ← read pkt (t + (p + 1 + sid + 2 + cs))
  need (leb (p + 1 + sid + 2 + cs + 1 + comp + 2) tlen)
  total ← read16 pkt (t + (p + 1 + sid + 2 + cs + 1 + comp))
  let q = p + 1 + sid + 2 + cs + 1 + comp + 2
  extensions pkt t (if ltb tlen (q + total) then tlen else q + total) (suc tlen) q

unfoldable pub extract_sni : List ℕ → ℕ → Scan (List ℕ)
extract_sni pkt l4 = do
  need (leb (l4 + 20) (length pkt))
  off ← read pkt (l4 + 12)
  let doff = off / 16 * 4
  need (leb 20 doff && leb (l4 + doff + 1) (length pkt))
  let t = l4 + doff
  let tlen = length pkt - t
  need (leb 5 tlen)
  a ← read pkt (t + 0)
  need (a == 0x16)
  b ← read pkt (t + 1)
  need (b == 0x03)
  need (leb (5 + 4) tlen)
  h ← read pkt (t + 5)
  need (h == 0x01)
  client_hello pkt t tlen (5 + 4 + 2 + 32)

abbrev pub by_protocol : List ℕ → ℕ → ℕ → Scan (List ℕ)
by_protocol pkt ihl proto =
    if proto == 17
    then extract_dns_name pkt ihl
    else if proto == 6
    then extract_sni pkt ihl
    else reject

-- The packet is a list, so that it is never the null pointer.
unfoldable pub extract_domain : List ℕ → Scan (List ℕ)
extract_domain pkt = do
  need (leb 20 (length pkt))
  v ← read pkt 0
  need (v / 16 == 4)
  let ihl = v % 16 * 4
  need (leb 20 ihl && leb ihl (length pkt))
  proto ← read pkt 9
  by_protocol pkt ihl proto
