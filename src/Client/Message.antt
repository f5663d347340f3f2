-- ===== src/Client/Message.antt =====
-- `build_identity_message` of src/UDP.cpp.
use scholar_vpn.Prelude.{
  ℕ, Bool, not, ◌&&◌, List, ◌∷◌, ◌++◌, Option, none, some, ltb, ◌==◌, if◌then◌else◌, length,
}
use scholar_vpn.Server.Auth.{is_empty}
use scholar_vpn.Client.{Client, Crypto}

-- What is signed: the nonces, the keys of the exchange, the client's key and its name.
unfoldable pub identity_payload : Client → List ℕ → List ℕ
identity_payload c cli_pub =
    c.nonce_c
    ++ (c.nonce_s
        ++ (c.dh_cli_pub ++ (c.dh_srv_pub ++ (cli_pub ++ (length c.client_id ∷ c.client_id)))))

-- 1 stands for a registration.
unfoldable pub identity_body : Client → List ℕ → List ℕ → List ℕ
identity_body c payload sig =
    (if is_empty c.register_token then 0 else 1)
    ∷ length c.register_token
    ∷ (c.register_token ++ (payload ++ sig))

unfoldable pub sign_identity : Crypto → Client → List ℕ → List ℕ → Option (List ℕ)
unfolding identity_body
sign_identity k c priv payload = elim (k.sign priv payload) [
  | none ↦ none
  | some sig ↦
      if not (length sig == 64)
      then none
      else if ltb 255 (length c.register_token)
      then none
      else some (identity_body c payload sig)
]

-- The nonces and the keys of the exchange are there.
abbrev pub has_context : Client → Bool
has_context c =
    (length c.nonce_c == 16)
    && ((length c.nonce_s == 16) && ((length c.dh_cli_pub == 32) && (length c.dh_srv_pub == 32)))

unfoldable pub build_identity_message : Crypto → Client → Option (List ℕ)
unfolding sign_identity identity_payload
build_identity_message k c = elim c.ed25519_priv [
  | none ↦ none
  | some priv ↦
      if not (has_context c)
      then none
      else if ltb 255 (length c.client_id)
      then none
      else elim (k.public_of priv) [
        | none ↦ none
        | some cli_pub ↦
            if length cli_pub == 32
            then sign_identity k c priv (identity_payload c cli_pub)
            else none
      ]
]
