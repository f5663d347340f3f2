-- ===== src/Client/Identity.antt =====
-- `build_identity_message` of src/UDP.cpp against `parse_identity` of server/UDP/UDP.cpp.
use scholar_vpn.Prelude.{
  ℕ, ◌+◌, ◌-◌, ◌≤◌, ◌≡◌, refl, sym, ap, ap₂, ◌∙◌, subst, true, false, not, List, [], ◌∷◌, ◌++◌,
  Option, some, ltb, ◌==◌, ==_iff, length, take, drop, length-append, drop_add, take-append,
  drop-append, arith, by_branch,
}
use scholar_vpn.Server.Identity.{Identity, byte_at, slice, fields_of, parse_identity}

-- Behind a part of length `a`.
drop-skip :
    {A : Type 0} (pre rest : List A) (a i : ℕ)
    → length pre ≡ a
    → drop (a + i) (pre ++ rest) ≡ drop i rest
drop-skip pre rest a i e =
    drop_add a i (pre ++ rest)
    ∙ ap (drop i) (subst (λ n. drop n (pre ++ rest) ≡ rest) e (drop-append pre rest))

slice-first : (mid post : List ℕ) (n : ℕ) → length mid ≡ n → take n (mid ++ post) ≡ mid
slice-first mid post n e = subst (λ n. take n (mid ++ post) ≡ mid) e (take-append mid post)

payload_of : List ℕ → List ℕ
payload_of inner = slice inner (2 + byte_at inner 1) (length inner - 64 - (2 + byte_at inner 1))

-- The message passes the checks of its lengths.
parse_identity-passes :
    (inner : List ℕ)
    → 2 + 129 + 64 ≤ length inner
    → 2 + byte_at inner 1 + 129 + 64 ≤ length inner
    → length (payload_of inner) ≡ 129 + byte_at (payload_of inner) 128
    → parse_identity inner ≡ some (fields_of inner (payload_of inner))
unfolding parse_identity payload_of
parse_identity-passes inner a b c =
    by_branch Passes (ltb (length inner) (2 + 129 + 64)) _ _
      (λ e. let x = short (2 + 129 + 64) (length inner) a e in absurd (cc))
      λ _.
        by_branch Passes (ltb (length inner) (2 + byte_at inner 1 + 129 + 64)) _ _
          (λ e. let x = short (2 + byte_at inner 1 + 129 + 64) (length inner) b e in absurd (cc))
          λ _.
            by_branch Passes (not (length payload == 129 + byte_at payload 128)) _ _
              (λ e. let x = same (length payload) (129 + byte_at payload 128) c e in absurd (cc))
              (λ _. refl)
  where
    short : (a b : ℕ) → a ≤ b → ltb b a ≡ true → true ≡ false
    short a b c e = ground (arith, c, e)

    same : (a b : ℕ) → a ≡ b → not (a == b) ≡ true → true ≡ false
    same a b c e = ground (arith, c, e, ==_iff a b)

    payload : List ℕ
    payload = slice inner (2 + byte_at inner 1) (length inner - 64 - (2 + byte_at inner 1))

    Passes : Option Identity → Type 0
    Passes x = x ≡ some (fields_of inner payload)

module _ (nc ns dc ds pub_key id : List ℕ) where
  -- As `identity_payload` lays it out.
  abbrev last_key : List ℕ
  last_key = pub_key ++ (length id ∷ id)

  abbrev keys : List ℕ
  keys = dc ++ (ds ++ last_key)

  abbrev laid_out : List ℕ
  laid_out = nc ++ (ns ++ keys)

  abbrev Sized : Type 0
  Sized =
      (length nc ≡ 16)
      × (length ns ≡ 16)
      × (length dc ≡ 32)
      × (length ds ≡ 32)
      × (length pub_key ≡ 32)

  module _ (sized : Sized) where
    behind_nc : (i : ℕ) → drop (16 + i) laid_out ≡ drop i (ns ++ keys)
    behind_nc i = drop-skip nc _ 16 i sized.0

    behind_ns : (i : ℕ) → drop (16 + (16 + i)) laid_out ≡ drop i (keys)
    behind_ns i = behind_nc (16 + i) ∙ drop-skip ns _ 16 i sized.1

    behind_dc : (i : ℕ) → drop (16 + (16 + (32 + i))) laid_out ≡ drop i (ds ++ last_key)
    behind_dc i = behind_ns (32 + i) ∙ drop-skip dc _ 32 i sized.2

    behind_ds : (i : ℕ) → drop (16 + (16 + (32 + (32 + i)))) laid_out ≡ drop i (last_key)
    behind_ds i = behind_dc (32 + i) ∙ drop-skip ds _ 32 i sized.3

    behind_key :
        (i : ℕ) → drop (16 + (16 + (32 + (32 + (32 + i))))) laid_out ≡ drop i (length id ∷ id)
    behind_key i = behind_ds (32 + i) ∙ drop-skip pub_key _ 32 i sized.4

    length-laid_out : length laid_out ≡ 129 + length id
    length-laid_out = omega (
      arith,
      sized.0,
      sized.1,
      sized.2,
      sized.3,
      sized.4,
      length-append nc (ns ++ keys),
      length-append ns keys,
      length-append dc (ds ++ last_key),
      length-append ds last_key,
      length-append pub_key (length id ∷ id),
    )

    -- The fields of the server, by their places.
    fields_of-laid_out :
        (inner : List ℕ)
        → fields_of inner laid_out ≡ record {
          flags = byte_at inner 0;
          token = slice inner 2 (byte_at inner 1);
          payload = laid_out;
          sig = drop (length inner - 64) inner;
          nonce_c = nc;
          nonce_s = ns;
          dh_cli_pub = dc;
          dh_srv_pub = ds;
          cli_pub = pub_key;
          client_id = id;
        }
    unfolding fields_of
    fields_of-laid_out inner =
        let e1 : slice laid_out 0 16 ≡ nc = slice-first nc (ns ++ keys) 16 sized.0 in
        let e2 : slice laid_out 16 16 ≡ ns =
          ap (take 16) (behind_nc 0) ∙ slice-first ns keys 16 sized.1 in
        let e3 : slice laid_out 32 32 ≡ dc =
          ap (take 32) (behind_ns 0) ∙ slice-first dc (ds ++ last_key) 32 sized.2 in
        let e4 : slice laid_out 64 32 ≡ ds =
          ap (take 32) (behind_dc 0) ∙ slice-first ds last_key 32 sized.3 in
        let e5 : slice laid_out 96 32 ≡ pub_key =
          ap (take 32) (behind_ds 0) ∙ slice-first pub_key (length id ∷ id) 32 sized.4 in
        let e6 : drop 129 laid_out ≡ id = behind_key 1 in rw (e1, e2, e3, e4, e5, e6) refl

    at_name : byte_at laid_out 128 ≡ length id
    at_name = ap (λ s. elim s [ [] ↦ 0 | c ∷ r ↦ c ]) (behind_key 0)

    module _ (flag : ℕ) (token sig : List ℕ) (long : length sig ≡ 64) where
      abbrev pub message : List ℕ
      message = flag ∷ length token ∷ (token ++ (laid_out ++ sig))

      length-message : length message ≡ 2 + length token + (129 + length id) + 64
      length-message = omega (
        arith,
        long,
        length-laid_out,
        length-append token (laid_out ++ sig),
        length-append laid_out sig,
      )

      behind_token : (i : ℕ) → drop (2 + length token + i) message ≡ drop i (laid_out ++ sig)
      behind_token i =
          drop_add (2 + length token) i message
          ∙ ap (drop i) (drop_add 2 (length token) message ∙ drop-append token (laid_out ++ sig))

      at_payload :
          slice message (2 + length token) (length message - 64 - (2 + length token)) ≡ laid_out
      at_payload =
          let e : length message - 64 - (2 + length token) ≡ length laid_out =
            omega (arith, length-message, length-laid_out) in
          let d : drop (2 + length token) message ≡ laid_out ++ sig =
            drop_add 2 (length token) message ∙ drop-append token (laid_out ++ sig) in
          rw (e, d) (take-append laid_out sig)

      at_sig : drop (length message - 64) message ≡ sig
      at_sig =
          let e : length message - 64 ≡ 2 + length token + length laid_out =
            omega (arith, length-message, length-laid_out) in
          ap (λ n. drop n message) e ∙ behind_token (length laid_out) ∙ drop-append laid_out sig

      abbrev pub read_back : Identity
      read_back = record {
        flags = flag;
        token = token;
        payload = laid_out;
        sig = sig;
        nonce_c = nc;
        nonce_s = ns;
        dh_cli_pub = dc;
        dh_srv_pub = ds;
        cli_pub = pub_key;
        client_id = id;
      }

      pub parse_identity-message : parse_identity message ≡ some read_back
      unfolding payload_of
      parse_identity-message =
          let c : length (payload_of message) ≡ 129 + byte_at (payload_of message) 128 =
            rw (at_payload) (length-laid_out ∙ ap (λ n. 129 + n) (sym at_name)) in
          parse_identity-passes message (omega (arith, length-message))
            (omega (arith, length-message)) c
          ∙ ap some (
              ap (fields_of message) at_payload
              ∙ fields_of-laid_out message
              ∙ ap₂ (λ t g. record read_back { token = t; sig = g })
                  (take-append token (laid_out ++ sig)) at_sig)
