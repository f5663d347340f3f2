-- ===== src/Tcp/Frames.antt =====
-- The frames that src/tcp.cpp takes out of a buffer, against the layout that `send_packet` of
-- src/UDP.cpp writes.
use native.Mathlib.Decide.{dec_lt}
use scholar_vpn.Prelude.{
  ℕ, ◌+◌, ◌*◌, ◌^◌, ◌/◌, ◌%◌, ◌≤◌, ◌<◌, ◌≡◌, refl, sym, ap, ap₂, ◌∙◌, subst, true, false, not, ◌||◌,
  List, [], ◌∷◌, ◌++◌, ltb, ◌==◌, ==_iff, length, take, drop, length-append, take-append, cut,
  arith, by_branch,
}
use scholar_vpn.Server.{Header}
use scholar_vpn.Tcp.Recv.{
  k_tunnel_header, max_payload_len, k_magic, v_tcp, magic_of, header_of, Taken, whole, short,
  take_bytes,
}

abbrev pub encode_header : Header → List ℕ
encode_header h =
    0x4E
    ∷ 0x50
    ∷ 0x56
    ∷ 0x4D
    ∷ h.version
    ∷ h.kind
    ∷ (h.payload_len / 2 ^ 8 % 256)
    ∷ (h.payload_len % 256)
    ∷ (h.sequence / 2 ^ 24 % 256)
    ∷ (h.sequence / 2 ^ 16 % 256)
    ∷ (h.sequence / 2 ^ 8 % 256)
    ∷ (h.sequence % 256)
    ∷ []

abbrev pub encode : Header × List ℕ → List ℕ
encode (h, p) = encode_header h ++ p

-- A frame of the TCP tunnel, in the bounds of its fields.
pub record IsFrame (f : Header × List ℕ) : Type 0 where
  pub version : f.0.version ≡ v_tcp
  pub len : f.0.payload_len ≡ length f.1
  pub few : length f.1 ≤ max_payload_len
  pub word : f.0.sequence < 2 ^ 32

header_of-encode :
    (f : Header × List ℕ) (rest : List ℕ) → IsFrame f → header_of (encode_header f.0 ++ rest) ≡ f.0
header_of-encode (h, p) rest v = λ i. record h { payload_len = len i; sequence = word i }
  where
    len : h.payload_len / 2 ^ 8 % 256 * 2 ^ 8 + h.payload_len % 256 ≡ h.payload_len
    len = omega (arith, v.len, v.few)

    word :
        h.sequence / 2 ^ 24 % 256 * 2 ^ 24
          + h.sequence / 2 ^ 16 % 256 * 2 ^ 16
          + h.sequence / 2 ^ 8 % 256 * 2 ^ 8
          + h.sequence % 256
        ≡ h.sequence
    word = omega (arith, v.word)

below : (a b : ℕ) → b ≤ a → ltb a b ≡ true → true ≡ false
below a b h e = ground (arith, h, e)

not_same : (a b c d : ℕ) → a ≡ c → b ≡ d → (not (a == c) || not (b == d)) ≡ true → true ≡ false
not_same a b c d e f h = ground (arith, h, e, f, ==_iff a c, ==_iff b d)

-- A buffer with a whole frame in front.
take_bytes-enough :
    (b : List ℕ)
    → k_tunnel_header + (header_of b).payload_len ≤ length b
    → (header_of b).payload_len ≤ max_payload_len
    → magic_of b ≡ k_magic
    → (header_of b).version ≡ v_tcp
    → take_bytes b ≡ whole (header_of b) (take (header_of b).payload_len (drop k_tunnel_header b))
unfolding take_bytes
take_bytes-enough b h m g v =
    by_branch Takes (ltb (length b) k_tunnel_header) _ _
      (λ e. let x = below (length b) k_tunnel_header (omega (arith, h)) e in absurd (cc))
      λ _.
        by_branch Takes (not (magic_of b == k_magic) || not ((header_of b).version == v_tcp)) _ _
          (λ e.
            let x = not_same (magic_of b) (header_of b).version k_magic v_tcp g v e in absurd (cc))
          λ _.
            by_branch Takes (ltb max_payload_len n) _ _
              (λ e. let x = below max_payload_len n m e in absurd (cc))
              λ _.
                by_branch Takes (ltb (length b) (k_tunnel_header + n)) _ _
                  (λ e. let x = below (length b) (k_tunnel_header + n) h e in absurd (cc))
                  (λ _. refl)
  where
    n : ℕ
    n = (header_of b).payload_len

    Takes : Taken → Type 0
    Takes t = t ≡ whole (header_of b) (take n (drop k_tunnel_header b))

-- The whole frame is taken out, whatever is behind it.
pub take_bytes-encode :
    (f : Header × List ℕ) (rest : List ℕ)
    → IsFrame f
    → take_bytes (encode f ++ rest) ≡ whole f.0 f.1
take_bytes-encode (h, p) rest v =
    let e = header_of-encode (h, p) (p ++ rest) v in
    let n = ap (λ (x : Header). x.payload_len) e ∙ v.len in
    take_bytes-enough (encode (h, p) ++ rest) (omega (arith, n, length-append p rest))
      (omega (arith, n, v.few)) refl v.version
    ∙ ap₂ whole e (ap (λ k. take k (p ++ rest)) n ∙ take-append p rest)

abbrev Waits : List ℕ → Type 0
Waits b = take_bytes b ≡ short

pub take_bytes-nil : take_bytes [] ≡ short
unfolding take_bytes
take_bytes-nil = refl

-- A buffer with a part of a frame.
take_bytes-part :
    (b : List ℕ)
    → k_tunnel_header ≤ length b
    → length b < k_tunnel_header + (header_of b).payload_len
    → (header_of b).payload_len ≤ max_payload_len
    → magic_of b ≡ k_magic
    → (header_of b).version ≡ v_tcp
    → take_bytes b ≡ short
unfolding take_bytes
take_bytes-part b k h m g v =
    by_branch Takes (ltb (length b) k_tunnel_header) _ _ (λ _. refl)
      λ _.
        by_branch Takes (not (magic_of b == k_magic) || not ((header_of b).version == v_tcp)) _ _
          (λ e.
            let x = not_same (magic_of b) (header_of b).version k_magic v_tcp g v e in absurd (cc))
          λ _.
            by_branch Takes (ltb max_payload_len n) _ _
              (λ e. let x = below max_payload_len n m e in absurd (cc))
              λ _.
                by_branch Takes (ltb (length b) (k_tunnel_header + n)) _ _ (λ _. refl)
                  (λ e. let x = reaches (length b) (k_tunnel_header + n) h e in absurd (cc))
  where
    n : ℕ
    n = (header_of b).payload_len

    Takes : Taken → Type 0
    Takes t = t ≡ short

    reaches : (a b : ℕ) → a < b → ltb a b ≡ false → true ≡ false
    reaches a b h e = ground (arith, h, e)

take_bytes-few : (b : List ℕ) → length b < k_tunnel_header → take_bytes b ≡ short
unfolding take_bytes
take_bytes-few b h =
    by_branch Takes (ltb (length b) k_tunnel_header) _ _ (λ _. refl)
      (λ e. let x = reaches (length b) k_tunnel_header h e in absurd (cc))
  where
    Takes : Taken → Type 0
    Takes t = t ≡ short

    reaches : (a b : ℕ) → a < b → ltb a b ≡ false → true ≡ false
    reaches a b h e = ground (arith, h, e)

-- A buffer that ends in the first frame of a stream waits for the rest.
pub take_bytes-short :
    (f : Header × List ℕ) (b ys rest : List ℕ)
    → IsFrame f
    → b ++ ys ≡ encode f ++ rest
    → length b < length (encode f)
    → take_bytes b ≡ short
take_bytes-short (h, p) b ys rest v e l = elim (dec_lt (length b) k_tunnel_header) [
  | yes few ↦ take_bytes-few b few
  | no many ↦
      let (zs, q, r) = cut (encode_header h) (p ++ rest) b ys e (omega (arith, many)) in
      let n = ap (λ (x : Header). x.payload_len) (header_of-encode (h, p) zs v) ∙ v.len in
      let m = ap length q in
      subst Waits (sym q) (
        take_bytes-part (encode_header h ++ zs) (omega arith) (omega (arith, n, l, m))
          (omega (arith, n, v.few)) refl v.version)
]
