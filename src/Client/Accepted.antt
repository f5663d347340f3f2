-- ===== src/Client/Accepted.antt =====
-- `build_identity_message` of src/UDP.cpp before `handle_identity` of server/UDP/UDP.cpp.
use scholar_vpn.Prelude.{
  ℕ, ◌≡◌, refl, ◌∙◌, subst, true, false, not, ◌&&◌, List, Option, some, ltb, ◌==◌, ==_iff,
  if◌then◌else◌, length, arith, by_branch, by_option, is_not,
}
use scholar_vpn.Vip.{ByteOrder}
use scholar_vpn.Server.{Session, Server, Outside, Chance}
use scholar_vpn.Server.Auth.{is_empty}
use scholar_vpn.Server.Identity.{Identity, parse_identity, is_bound, check_client, handle_identity}
use scholar_vpn.Server.Held.{same_key}
use scholar_vpn.Client.{Client, Crypto}
use scholar_vpn.Client.Message.{
  identity_payload, identity_body, sign_identity, has_context, build_identity_message,
}
use scholar_vpn.Client.Identity.{read_back, parse_identity-message}

-- Both ends have the same nonces and the same keys of the exchange.
abbrev pub Agree : Client → Session → Type 0
Agree c s =
    (c.nonce_c ≡ s.nonce_c)
    × (c.nonce_s ≡ s.nonce_s)
    × (c.dh_cli_pub ≡ s.dh_cli_pub)
    × (c.dh_srv_pub ≡ s.dh_srv_pub)

-- The server takes a signature that the client makes.
abbrev pub Verifies : Outside → Crypto → Type 0
Verifies out k =
    (priv pub_key payload sig : List ℕ)
    → k.public_of priv ≡ some pub_key
    → k.sign priv payload ≡ some sig
    → out.verify pub_key payload sig ≡ true

-- What the server makes of a message.
pub record Accepted (out : Outside) (o : ByteOrder) (ch : Chance) (sv : Server) (s : Session)
    (c : Client) (msg : List ℕ) : Type 0 where
  pub identity : Identity
  pub parsed : parse_identity msg ≡ some identity
  pub bound : is_bound out s identity ≡ true
  pub handled : handle_identity out o ch sv s msg ≡ check_client out o ch sv s identity
  pub name : identity.client_id ≡ c.client_id
  pub token : identity.token ≡ c.register_token
  pub mode : identity.flags ≡ (if is_empty c.register_token then 0 else 1)

four :
    (a b d e : ℕ)
    → ((a == 16) && ((b == 16) && ((d == 32) && (e == 32)))) ≡ true
    → (a ≡ 16) × (b ≡ 16) × (d ≡ 32) × (e ≡ 32)
four a b d e h = (
  ground (arith, h, ==_iff a 16),
  ground (arith, h, ==_iff b 16),
  ground (arith, h, ==_iff d 32),
  ground (arith, h, ==_iff e 32),
)

module _ (out : Outside) (o : ByteOrder) (ch : Chance) (sv : Server) (s : Session) (k : Crypto)
    (c : Client) (agree : Agree c s) (verifies : Verifies out k)
    (new : s.authenticated ≡ false) where
  bound_by :
      (m : Identity)
      → m.nonce_c ≡ c.nonce_c
      → m.nonce_s ≡ c.nonce_s
      → m.dh_cli_pub ≡ c.dh_cli_pub
      → m.dh_srv_pub ≡ c.dh_srv_pub
      → out.verify m.cli_pub m.payload m.sig ≡ true
      → is_bound out s m ≡ true
  bound_by m a b d e f =
      rw
        (
          a ∙ agree.0,
          b ∙ agree.1,
          d ∙ agree.2,
          e ∙ agree.3,
          f,
          same_key s.nonce_c,
          same_key s.nonce_s,
          same_key s.dh_cli_pub,
          same_key s.dh_srv_pub,
        )
        refl

  handles :
      (msg : List ℕ) (m : Identity)
      → parse_identity msg ≡ some m
      → is_bound out s m ≡ true
      → handle_identity out o ch sv s msg ≡ check_client out o ch sv s m
  unfolding handle_identity
  handles msg m p b = by_branch Takes s.authenticated _ _ (λ e. absurd (cc)) (λ _. rw (p, b) refl)
    where
      Takes : Server → Type 0
      Takes sv' = sv' ≡ check_client out o ch sv s m

  -- The signature comes last.
  accepted :
      (msg priv pub_key : List ℕ)
      → has_context c ≡ true
      → k.public_of priv ≡ some pub_key
      → length pub_key ≡ 32
      → sign_identity k c priv (identity_payload c pub_key) ≡ some msg
      → Accepted out o ch sv s c msg
  unfolding sign_identity identity_payload identity_body
  accepted msg priv pub_key context e long =
      by_option Signs (k.sign priv payload) _ _ (λ _ h. absurd (cc))
        λ sig g.
          by_branch Signs (not (length sig == 64)) _ _ (λ _ h. absurd (cc))
            λ a.
              by_branch Signs (ltb 255 (length c.register_token)) _ _ (λ _ h. absurd (cc))
                λ _ h.
                  subst (Accepted out o ch sv s c) (some_inj h)
                    (built sig (is_equal (length sig) 64 a) (verifies priv pub_key payload sig e g))
    where
      payload : List ℕ
      payload = identity_payload c pub_key

      Signs : Option (List ℕ) → Type 0
      Signs x = x ≡ some msg → Accepted out o ch sv s c msg

      flag : ℕ
      flag = if is_empty c.register_token then 0 else 1

      is_equal : (a b : ℕ) → not (a == b) ≡ false → a ≡ b
      is_equal a b h = ground (arith, h, ==_iff a b)

      some_inj : {x y : List ℕ} → some x ≡ some y → x ≡ y
      some_inj h = cc

      sizes :
          (length c.nonce_c ≡ 16)
          × (length c.nonce_s ≡ 16)
          × (length c.dh_cli_pub ≡ 32)
          × (length c.dh_srv_pub ≡ 32)
          × (length pub_key ≡ 32)
      sizes =
          let h =
            four (length c.nonce_c) (length c.nonce_s) (length c.dh_cli_pub) (length c.dh_srv_pub)
              context in
          (h.0, h.1, h.2, h.3, long)

      built :
          (sig : List ℕ)
          → length sig ≡ 64
          → out.verify pub_key payload sig ≡ true
          → Accepted out o ch sv s c (identity_body c payload sig)
      built sig g v =
          let p =
            parse_identity-message c.nonce_c c.nonce_s c.dh_cli_pub c.dh_srv_pub pub_key c.client_id
              sizes flag c.register_token sig g in
          let m =
            read_back c.nonce_c c.nonce_s c.dh_cli_pub c.dh_srv_pub pub_key c.client_id sizes flag
              c.register_token sig g in
          let b = bound_by m refl refl refl refl v in
          record {
            identity = m;
            parsed = p;
            bound = b;
            handled = handles (identity_body c payload sig) m p b;
            name = refl;
            token = refl;
            mode = refl;
          }

  -- The server takes the identity message that a client makes, whatever its name, its token and its
  -- keys are: where both ends have the same nonces and keys of the exchange, the server takes the
  -- signatures that the client makes, and the session is not let in yet, the parsed message is bound
  -- to the session, has the client's name, its token and the mode that the token stands for, and
  -- `handle_identity` goes on to the check of the client with it, without a refusal before.
  pub build_identity_message-Accepted :
      (msg : List ℕ) → build_identity_message k c ≡ some msg → Accepted out o ch sv s c msg
  unfolding build_identity_message
  build_identity_message-Accepted msg =
      by_option Builds c.ed25519_priv _ _ (λ _ h. absurd (cc))
        λ priv _.
          by_branch Builds (not (has_context c)) _ _ (λ _ h. absurd (cc))
            λ a.
              by_branch Builds (ltb 255 (length c.client_id)) _ _ (λ _ h. absurd (cc))
                λ _.
                  by_option Builds (k.public_of priv) _ _ (λ _ h. absurd (cc))
                    λ pub_key e.
                      by_branch Builds (length pub_key == 32) _ _
                        (λ d.
                          accepted msg priv pub_key (is_not (has_context c) a) e
                            (equal (length pub_key) d))
                        (λ _ h. absurd (cc))
    where
      Builds : Option (List ℕ) → Type 0
      Builds x = x ≡ some msg → Accepted out o ch sv s c msg

      equal : (n : ℕ) → (n == 32) ≡ true → n ≡ 32
      equal n h = ground (arith, h, ==_iff n 32)
