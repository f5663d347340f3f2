-- ===== src/Client/Forged.antt =====
-- Frames that are not from the server, before `handle_frame` of src/UDP.cpp.
use scholar_vpn.Prelude.{
  ℕ, ◌≡◌, ◌⊎◌, inl, inr, refl, ap, true, false, not, List, [], ◌++◌, ◌==◌, ==_iff, length, take,
  drop, by_branch, by_option,
}
use scholar_vpn.Replay.{too_old}
use scholar_vpn.Server.{Header, m_auth_server_hello}
use scholar_vpn.Client.{Client, Crypto, Turn}
use scholar_vpn.Client.Send.{is_encrypted}
use scholar_vpn.Client.Receive.{opened, handle_sealed, server_hello, handle_frame}

-- What a greeting that is not authentic does: its nonce and its key stay, and the hand-shake fails.
abbrev pub refused : Client → List ℕ → Client
refused c payload = record c {
  nonce_s = take 16 payload;
  dh_srv_pub = take 32 (drop 16 payload);
  auth_failed = true;
}

module _ (k : Crypto) (c : Client) (t : Turn) (hdr : Header) (payload : List ℕ) where
  abbrev Unmoved : Client → Type 0
  Unmoved c' = (c' ≡ c) ⊎ ((hdr.kind ≡ m_auth_server_hello) × (c' ≡ refused c payload))

  sealed-Unmoved :
      k.open_sealed c.key_s2c hdr payload ≡ [] → Unmoved (handle_sealed k c t hdr payload)
  unfolding handle_sealed
  sealed-Unmoved e =
      by_branch Unmoved (not c.enc_ready) _ _ (λ _. inl refl)
        λ _.
          by_branch Unmoved (too_old c.replay hdr.sequence) _ _ (λ _. inl refl)
            (λ _. inl (ap (opened c t hdr.sequence) e))

  hello-Unmoved :
      ((key m : List ℕ) → k.verify key m (drop 48 payload) ≡ false)
      → hdr.kind ≡ m_auth_server_hello
      → Unmoved (server_hello k c payload)
  unfolding server_hello
  hello-Unmoved f e =
      by_branch Unmoved (not (length payload == 112)) _ _ (λ _. inl refl)
        λ _.
          by_option Unmoved c.server_sig_pub _ _ (λ _. inr (e, refl))
            λ key _.
              by_branch Unmoved (k.verify key signed (drop 48 payload)) _ _
                (λ g. let x = f key signed in absurd (cc)) (λ _. inr (e, refl))
    where
      signed : List ℕ
      signed = c.nonce_c ++ (take 16 payload ++ take 32 (drop 16 payload))

  -- A frame that does not open under the session key, and whose last 64 bytes are a signature of no
  -- message under any key, leaves the client as it was, in every stage, except for a greeting in plain:
  -- that one may leave its nonce and its key and make the hand-shake fail. Nothing of it reaches the
  -- device, is answered, lets the client in or takes up the window.
  pub handle_frame-forged :
      k.open_sealed c.key_s2c hdr payload ≡ []
      → ((key m : List ℕ) → k.verify key m (drop 48 payload) ≡ false)
      → (handle_frame k c t hdr payload ≡ c)
        ⊎ ((hdr.kind ≡ m_auth_server_hello) × (handle_frame k c t hdr payload ≡ refused c payload))
  unfolding handle_frame
  handle_frame-forged e f =
      by_branch Unmoved (is_encrypted hdr.kind) _ _ (λ _. sealed-Unmoved e)
        λ _.
          by_branch Unmoved (hdr.kind == m_auth_server_hello) _ _
            (λ g. hello-Unmoved f (same hdr.kind m_auth_server_hello g)) (λ _. inl refl)
    where
      same : (a b : ℕ) → (a == b) ≡ true → a ≡ b
      same a b h = (==_iff a b).0 h
