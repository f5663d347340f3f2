-- ===== src/Server/Forged.antt =====
-- `handle_framed` of server/UDP/UDP.cpp: a frame that the client did not make.
use scholar_vpn.Prelude.{
  ℕ, ◌≡◌, refl, sym, ap, ◌∙◌, subst, true, false, not, ◌||◌, List, [], ◌==◌, if◌then◌else◌, length,
  arith, by_branch,
}
use scholar_vpn.Vip.{ByteOrder}
use scholar_vpn.Replay.{too_old}
use scholar_vpn.Server.{
  Session, Server, HandshakeStage, hs_authed, is_authed, is_hello, Header, Outside, Chance,
  m_auth_hello, m_auth_client_hello,
}
use scholar_vpn.Server.Auth.{handle_auth_hello, handle_auth_client_hello}
use scholar_vpn.Server.Receive.{is_sealed, opened, handle_sealed, handle_plain, handle_framed}

module _ (o : ByteOrder) (out : Outside) (ch : Chance) where
  auth_hello-unchanged :
      (sv : Server) (s : Session) (payload : List ℕ)
      → s.authenticated ≡ true
      → handle_auth_hello out o ch sv s payload ≡ sv
  unfolding handle_auth_hello
  auth_hello-unchanged sv s payload a =
      by_branch Same (not (length payload == 16)) _ _ (λ b. refl)
        λ b.
          by_branch Same (not sv.has_sig_priv) _ _ (λ b. refl)
            λ b.
              by_branch Same (is_authed s.hs_stage || s.authenticated) _ _ (λ b. refl)
                (λ b. absurd (ground (arith, a, b)))
    where
      Same : Server → Type 0
      Same sv' = sv' ≡ sv

  client_hello-unchanged :
      (sv : Server) (s : Session) (payload : List ℕ)
      → s.hs_stage ≡ hs_authed
      → handle_auth_client_hello out sv s payload ≡ sv
  unfolding handle_auth_client_hello
  client_hello-unchanged sv s payload a =
      by_branch Same (not (length payload == 32)) _ _ (λ b. refl)
        λ b.
          by_branch Same (not (is_hello s.hs_stage)) _ _ (λ b. refl)
            (λ b. absurd (ground (arith, staged s.hs_stage a b)))
    where
      Same : Server → Type 0
      Same sv' = sv' ≡ sv

      staged : (h : HandshakeStage) → h ≡ hs_authed → not (is_hello h) ≡ false → true ≡ false
      staged h a b = sym (ap (λ x. not (is_hello x)) a) ∙ b

  -- A frame that is not authentic under the key of its authenticated session, whatever its type, its
  -- number and its bytes, changes nothing on the server: not the session, no other one, no queue, no
  -- file, and no answer is sent.
  pub framed-unchanged :
      (sv : Server) (s : Session) (hdr : Header) (payload : List ℕ)
      → s.authenticated ≡ true
      → s.hs_stage ≡ hs_authed
      → out.open_sealed s.key_c2s hdr payload ≡ []
      → handle_framed out o ch sv s hdr payload ≡ sv
  unfolding handle_framed handle_sealed handle_plain
  framed-unchanged sv s hdr payload a h e =
      by_branch Same (not (hdr.version == (if s.is_tcp then 2 else 1))) _ _ (λ b. refl)
        λ b.
          by_branch Same (is_sealed hdr.kind) _ _
            (λ b.
              by_branch Same (not s.enc_ready) _ _ (λ c. refl)
                λ c.
                  by_branch Same (too_old s.replay hdr.sequence) _ _ (λ d. refl)
                    (λ d.
                      subst (λ bytes. opened out o ch sv s hdr.sequence bytes ≡ sv) (sym e) refl))
            (λ b.
              by_branch Same (hdr.kind == m_auth_hello) _ _
                (λ c. auth_hello-unchanged sv s payload a)
                λ c.
                  by_branch Same (hdr.kind == m_auth_client_hello) _ _
                    (λ d. client_hello-unchanged sv s payload h) (λ d. refl))
    where
      Same : Server → Type 0
      Same sv' = sv' ≡ sv
