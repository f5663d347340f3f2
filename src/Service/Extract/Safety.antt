-- ===== src/Service/Extract/Safety.antt =====
-- server/ServiceDB.cpp: the reads and the loops of `extract_domain`.
use scholar_vpn.Prelude.{
  ℕ, zero, suc, ◌+◌, ◌-◌, ◌*◌, ◌/◌, ◌%◌, ◌<◌, ◌≤◌, ◌≡◌, ◌≢◌, refl, Bool, true, false, ◌&&◌, not,
  List, [], ◌∷◌, some, ltb, leb, ◌==◌, if◌then◌else◌, length, get_elem?, arith,
}
use scholar_vpn.Service.Extract.{
  Scan, fault, reject, ok, ◌>>=◌, ◌>>◌, need, read, read16, lower_bytes, is_empty, add_label,
  labels, extract_dns_name, server_name, extensions, client_hello, extract_sni, extract_domain,
}

pub record IsSafe {ℓ} {A : Type ℓ} (m : Scan A) : Type ℓ where
  pub no_fault : m ≢ fault

ok-IsSafe {ℓ} : {A : Type ℓ} (a : A) → IsSafe (ok a)
ok-IsSafe a = record { no_fault = λ e. cc }

reject-IsSafe {ℓ} : (A : Type ℓ) (m : Scan A) → m ≡ reject → IsSafe m
reject-IsSafe A m h = record { no_fault = λ e. cc }

bind-IsSafe {ℓ κ} :
    {A : Type ℓ} {B : Type κ} (m : Scan A) (f : A → Scan B)
    → IsSafe m
    → ((a : A) → m ≡ ok a → IsSafe (f a))
    → IsSafe (m >>= f)
unfolding ◌>>=◌
bind-IsSafe fault f h k = record { no_fault = λ e. h.no_fault refl }
bind-IsSafe reject f h k = record { no_fault = λ e. cc }
bind-IsSafe (ok a) f h k = k a refl

need-IsSafe {ℓ} :
    {B : Type ℓ} (c : Bool) (k : Scan B) → (c ≡ true → IsSafe k) → IsSafe (need c >> k)
unfolding ◌>>◌ need
need-IsSafe true k h = h refl
need-IsSafe false k h = record { no_fault = λ e. cc }

get-lt : (pkt : List ℕ) (i : ℕ) → i < length pkt → (b : ℕ) × (get_elem? pkt i ≡ some b)
get-lt [] i h = absurd (omega arith)
get-lt (x ∷ pkt) zero h = (x, refl)
get-lt (x ∷ pkt) (suc i) h = get-lt pkt i (omega arith)

read-IsSafe : (pkt : List ℕ) (i : ℕ) → i < length pkt → IsSafe (read pkt i)
unfolding read
read-IsSafe pkt i h = let (b, e) = get-lt pkt i h in rw (e, read) (ok-IsSafe b)

byte-IsSafe {ℓ} :
    {B : Type ℓ} (pkt : List ℕ) (i : ℕ) (f : ℕ → Scan B)
    → i < length pkt
    → ((b : ℕ) → IsSafe (f b))
    → IsSafe (read pkt i >>= f)
byte-IsSafe pkt i f h k = bind-IsSafe (read pkt i) f (read-IsSafe pkt i h) (λ b e. k b)

read16-IsSafe : (pkt : List ℕ) (i : ℕ) → i + 1 < length pkt → IsSafe (read16 pkt i)
unfolding read16
read16-IsSafe pkt i h =
    byte-IsSafe pkt i _ (omega arith) λ hi. byte-IsSafe pkt (i + 1) _ h λ lo. ok-IsSafe _

word-IsSafe {ℓ} :
    {B : Type ℓ} (pkt : List ℕ) (i : ℕ) (f : ℕ → Scan B)
    → i + 1 < length pkt
    → ((b : ℕ) → IsSafe (f b))
    → IsSafe (read16 pkt i >>= f)
word-IsSafe pkt i f h k = bind-IsSafe (read16 pkt i) f (read16-IsSafe pkt i h) (λ b e. k b)

lower_bytes-IsSafe : (pkt : List ℕ) (n i : ℕ) → i + n ≤ length pkt → IsSafe (lower_bytes pkt n i)
unfolding lower_bytes
lower_bytes-IsSafe pkt zero i h = ok-IsSafe []
lower_bytes-IsSafe pkt (suc n) i h = byte-IsSafe pkt i _ (omega arith) λ b.
    bind-IsSafe (lower_bytes pkt n (i + 1)) _ (lower_bytes-IsSafe pkt n (i + 1) (omega arith))
      λ rest e. ok-IsSafe _

branch-IsSafe {ℓ} :
    {A : Type ℓ} (b : Bool) (x y : Scan A)
    → (b ≡ true → IsSafe x)
    → (b ≡ false → IsSafe y)
    → IsSafe (elim b [ true ↦ x | false ↦ y ])
branch-IsSafe true x y h k = h refl
branch-IsSafe false x y h k = k refl

if-IsSafe {ℓ} :
    {A : Type ℓ} (b : Bool) (x y : Scan A) → IsSafe x → IsSafe y → IsSafe (if b then x else y)
if-IsSafe true x y h k = h
if-IsSafe false x y h k = k

leb-le : (a b : ℕ) → leb a b ≡ true → a ≤ b
leb-le a b h = ground arith

labels-IsSafe : (pkt : List ℕ) (guard p : ℕ) (name : List ℕ) → IsSafe (labels pkt guard p name)
unfolding labels
labels-IsSafe pkt zero p name = ok-IsSafe name
labels-IsSafe pkt (suc guard) p name = need-IsSafe (ltb p (length pkt)) _ λ h.
    byte-IsSafe pkt p _ (ground arith) λ l.
      branch-IsSafe (l == 0) _ _ (λ e. ok-IsSafe name)
        λ e. need-IsSafe (leb (p + 1 + l) (length pkt)) _ λ k.
          bind-IsSafe (lower_bytes pkt l (p + 1)) _
            (lower_bytes-IsSafe pkt l (p + 1) (leb-le _ _ k))
            λ label z. labels-IsSafe pkt guard (p + 1 + l) (add_label name label)

extract_dns_name-IsSafe : (pkt : List ℕ) (l4 : ℕ) → IsSafe (extract_dns_name pkt l4)
unfolding extract_dns_name
extract_dns_name-IsSafe pkt l4 = need-IsSafe (leb (l4 + 8) (length pkt)) _ λ a.
    word-IsSafe pkt (l4 + 2) _ (omega (arith, leb-le _ _ a)) λ dport.
      need-IsSafe (dport == 53) _ λ b. need-IsSafe (leb (l4 + 8 + 12) (length pkt)) _ λ c.
        word-IsSafe pkt (l4 + 8 + 4) _ (omega (arith, leb-le _ _ c)) λ qd.
          need-IsSafe (leb 1 qd) _ λ d.
            bind-IsSafe (labels pkt 16 (l4 + 8 + 12) []) _ (labels-IsSafe pkt 16 (l4 + 8 + 12) [])
              λ name e.
                need-IsSafe (not (is_empty name) && leb (length name) 253) _ λ f. ok-IsSafe name

server_name-IsSafe :
    (pkt : List ℕ) (t ext_end p el : ℕ)
    → t + ext_end ≤ length pkt
    → 5 ≤ el
    → p + el ≤ ext_end
    → IsSafe (server_name pkt t ext_end p el)
unfolding server_name
server_name-IsSafe pkt t ext_end p el h k m = byte-IsSafe pkt (t + (p + 2)) _ (omega arith) λ kind.
    need-IsSafe (kind == 0) _ λ a. word-IsSafe pkt (t + (p + 3)) _ (omega arith) λ hl.
      need-IsSafe (ltb 0 hl && (leb (5 + hl) el && leb (p + 5 + hl) ext_end)) _ λ b.
        bind-IsSafe (lower_bytes pkt hl (t + (p + 5))) _
          (lower_bytes-IsSafe pkt hl (t + (p + 5)) (omega (arith, last hl b)))
          λ host e. need-IsSafe (not (is_empty host)) _ λ f. ok-IsSafe host
  where
    last :
        (hl : ℕ)
        → (ltb 0 hl && (leb (5 + hl) el && leb (p + 5 + hl) ext_end)) ≡ true
        → p + 5 + hl ≤ ext_end
    last hl b = ground arith

both : (c : ℕ) (el : ℕ) → (c == 0 && leb 5 el) ≡ true → 5 ≤ el
both c el h = ground arith

extensions-IsSafe :
    (pkt : List ℕ) (t ext_end fuel p : ℕ)
    → t + ext_end ≤ length pkt
    → 0 < fuel
    → ext_end < p + fuel
    → IsSafe (extensions pkt t ext_end fuel p)
unfolding extensions
extensions-IsSafe pkt t ext_end zero p h k m = absurd (omega arith)
extensions-IsSafe pkt t ext_end (suc fuel) p h k m = need-IsSafe (leb (p + 4) ext_end) _ λ a.
    let inside = leb-le _ _ a in
    word-IsSafe pkt (t + p) _ (omega (arith, inside)) λ et.
      word-IsSafe pkt (t + (p + 2)) _ (omega (arith, inside)) λ el.
        need-IsSafe (leb el (ext_end - (p + 4))) _ λ b.
          branch-IsSafe (et == 0 && leb 5 el) _ _
            (λ e.
              server_name-IsSafe pkt t ext_end (p + 4) el h (both et el e)
                (omega (arith, inside, leb-le _ _ b)))
            (λ e.
              extensions-IsSafe pkt t ext_end fuel (p + 4 + el) h (omega (arith, inside))
                (omega (arith, inside)))

client_hello-IsSafe :
    (pkt : List ℕ) (t tlen p : ℕ) → t + tlen ≤ length pkt → IsSafe (client_hello pkt t tlen p)
unfolding client_hello
client_hello-IsSafe pkt t tlen p h = need-IsSafe (leb (p + 1) tlen) _ λ a.
    byte-IsSafe pkt (t + p) _ (omega (arith, leb-le _ _ a)) λ sid.
      need-IsSafe (leb (p + 1 + sid + 2) tlen) _ λ b.
        word-IsSafe pkt (t + (p + 1 + sid)) _ (omega (arith, leb-le _ _ b)) λ cs.
          need-IsSafe (leb (p + 1 + sid + 2 + cs + 1) tlen) _ λ c.
            byte-IsSafe pkt (t + (p + 1 + sid + 2 + cs)) _ (omega (arith, leb-le _ _ c)) λ comp.
              need-IsSafe (leb (p + 1 + sid + 2 + cs + 1 + comp + 2) tlen) _ λ d.
                word-IsSafe pkt (t + (p + 1 + sid + 2 + cs + 1 + comp)) _
                  (omega (arith, leb-le _ _ d))
                  λ total.
                    extensions-IsSafe pkt t _ (suc tlen) _
                      (omega (arith, clip tlen (p + 1 + sid + 2 + cs + 1 + comp + 2 + total)))
                      (omega arith)
                      (omega (arith, clip tlen (p + 1 + sid + 2 + cs + 1 + comp + 2 + total)))
  where
    clip : (n q : ℕ) → (if ltb n q then n else q) ≤ n
    clip n q = ground arith

second : (a b : Bool) → (a && b) ≡ true → b ≡ true
second a b h = ground arith

extract_sni-IsSafe : (pkt : List ℕ) (l4 : ℕ) → IsSafe (extract_sni pkt l4)
unfolding extract_sni
extract_sni-IsSafe pkt l4 = need-IsSafe (leb (l4 + 20) (length pkt)) _ λ a.
    byte-IsSafe pkt (l4 + 12) _ (omega (arith, leb-le _ _ a)) λ off.
      need-IsSafe (leb 20 (off / 16 * 4) && leb (l4 + off / 16 * 4 + 1) (length pkt)) _ λ b.
        let fits =
          leb-le (l4 + off / 16 * 4 + 1) (length pkt) (second (leb 20 (off / 16 * 4)) _ b) in
        need-IsSafe (leb 5 (length pkt - (l4 + off / 16 * 4))) _ λ c.
          let five = leb-le _ _ c in
          byte-IsSafe pkt (l4 + off / 16 * 4 + 0) _ (omega (arith, fits)) λ x.
            need-IsSafe (x == 0x16) _ λ d.
              byte-IsSafe pkt (l4 + off / 16 * 4 + 1) _ (omega (arith, five)) λ y.
                need-IsSafe (y == 0x03) _ λ e.
                  need-IsSafe (leb (5 + 4) (length pkt - (l4 + off / 16 * 4))) _ λ f.
                    byte-IsSafe pkt (l4 + off / 16 * 4 + 5) _ (omega (arith, leb-le _ _ f)) λ z.
                      need-IsSafe (z == 0x01) _ λ g.
                        client_hello-IsSafe pkt (l4 + off / 16 * 4)
                          (length pkt - (l4 + off / 16 * 4)) (5 + 4 + 2 + 32) (omega (arith, fits))

-- Whatever bytes a packet holds, `extract_domain` reads only inside of it and its loops end.
pub extract_domain-safe : (pkt : List ℕ) → extract_domain pkt ≢ fault
unfolding extract_domain
extract_domain-safe pkt = checked.no_fault
  where
    checked : IsSafe (extract_domain pkt)
    checked = need-IsSafe (leb 20 (length pkt)) _ λ a.
        byte-IsSafe pkt 0 _ (omega (arith, leb-le _ _ a)) λ v. need-IsSafe (v / 16 == 4) _ λ b.
          need-IsSafe (leb 20 (v % 16 * 4) && leb (v % 16 * 4) (length pkt)) _ λ c.
            byte-IsSafe pkt 9 _ (omega (arith, leb-le _ _ a)) λ proto.
              if-IsSafe (proto == 17) _ _ (extract_dns_name-IsSafe pkt (v % 16 * 4)) (
                if-IsSafe (proto == 6) _ _ (extract_sni-IsSafe pkt (v % 16 * 4))
                  (reject-IsSafe _ _ refl))
