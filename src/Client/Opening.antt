-- ===== src/Client/Opening.antt =====
-- The first part of `send_work` of src/UDP.cpp, up to the client's identity.
use scholar_vpn.Prelude.{
  ℕ, ◌+◌, ◌^◌, ◌<◌, ◌≡◌, refl, ap, ◌∙◌, Bool, true, false, not, ◌&&◌, ◌||◌, List, some, arith,
  by_branch, by_option,
}
use scholar_vpn.Server.{m_identity, m_auth_hello, m_auth_client_hello}
use scholar_vpn.Client.{Client, Crypto, Net, Turn}
use scholar_vpn.Client.Send.{is_encrypted, sends}
use scholar_vpn.Client.Message.{build_identity_message}
use scholar_vpn.Client.Work.{
  Stage, hello_wait, identity_wait, flowing, ended, Verdict, give_up, resend, idle, wait_round,
  reconnect, begin_identity, derive_keys, exchange, after_hello, hello_turn,
}
use scholar_vpn.Client.Sound.{Arrivals, IsSound, IsSound-weaken, sends-Sends, Sends-IsSound}

-- The exchange brings the keys, and not before.
abbrev pub Fits : Client → Stage → Type 0
Fits c (hello_wait start last retries) = c.enc_ready ≡ false
Fits c (identity_wait start last retries msg) = c.enc_ready ≡ true
Fits c (flowing heart) = c.enc_ready ≡ true
Fits c ended = Unit

-- A state and its stage, with at most `m` numbered frames.
pub record Goes (k : Crypto) (S : Arrivals) (m : ℕ) (r : Client × Stage) : Type 0 where
  pub sound : IsSound k S m r.0
  pub fits : Fits r.0 r.1

-- One send, and what it leaves as it was.
pub record Sent (k : Crypto) (S : Arrivals) (m : ℕ) (c c' : Client) : Type 0 where
  pub sound : IsSound k S (m + 1) c'
  pub ready : c'.enc_ready ≡ c.enc_ready
  pub greeted : c'.server_hello_ok ≡ c.server_hello_ok

module _ {k : Crypto} {S : Arrivals} (m : ℕ) (room : m + 1 < 2 ^ 32) where
  pub sends-Sent :
      (c : Client) (kind : ℕ) (bytes : List ℕ) (net : Net)
      → (is_encrypted kind ≡ true → c.enc_ready ≡ true)
      → IsSound k S m c
      → Sent k S m c (sends c kind bytes net)
  sends-Sent c kind bytes net h v =
      let s = sends-Sends m room c v kind bytes net h in
      record {
        sound = Sends-IsSound m c _ v s;
        ready = ap (λ x. x.enc_ready) s.same;
        greeted = ap (λ x. x.server_hello_ok) s.same;
      }

module _ {S : Arrivals} (k : Crypto) (m : ℕ) (room : m + 2 < 2 ^ 32) where
  pub stays : (c : Client) → IsSound k S m c → IsSound k S (m + 2) c
  stays c v = IsSound-weaken m (m + 2) c (omega arith) v

  pub over : (c : Client) → IsSound k S (m + 1) c → IsSound k S (m + 2) c
  over c v = IsSound-weaken (m + 1) (m + 2) c (omega arith) v

  pub reconnect-Goes : (c : Client) → IsSound k S (m + 1) c → Goes k S (m + 2) (reconnect c)
  reconnect-Goes c v = record { sound = over c v; fits = tt }

  begin_identity-Goes :
      (c : Client) (t : Turn)
      → c.enc_ready ≡ true
      → IsSound k S (m + 1) c
      → Goes k S (m + 2) (begin_identity k c t)
  unfolding begin_identity
  begin_identity-Goes c t h v =
      by_option (Goes k S (m + 2)) (build_identity_message k c) _ _ (λ _. reconnect-Goes c v)
        λ msg _.
          let s = sends-Sent (m + 1) (omega (arith, room)) c m_identity msg t.net_next (λ _. h) v in
          record {
            sound =
                IsSound-weaken (m + 1 + 1) (m + 2) (sends c m_identity msg t.net_next) (omega arith)
                  s.sound;
            fits = s.ready ∙ h;
          }

  derive_keys-Goes :
      (c : Client) (t : Turn) (secret : List ℕ)
      → c.server_hello_ok ≡ true
      → c.enc_ready ≡ false
      → IsSound k S (m + 1) c
      → Goes k S (m + 2) (derive_keys k c t secret)
  unfolding derive_keys
  derive_keys-Goes c t secret h n v =
      by_option (Goes k S (m + 2)) (k.derive secret c.nonce_c c.nonce_s) _ _
        (λ _. reconnect-Goes c v)
        λ p _.
          begin_identity-Goes (record c { key_c2s = p.0; key_s2c = p.1; enc_ready = true }) t refl
            (record {
              hello = λ _. h;
              keys = λ _. refl;
              done = v.done;
              greeted = v.greeted;
              let_in = λ x. let y = v.keys x in absurd (cc);
              count = v.count;
              confidential = v.confidential;
              descending = v.descending;
            })

  exchange-Goes :
      (c : Client) (t : Turn)
      → c.server_hello_ok ≡ true
      → c.enc_ready ≡ false
      → IsSound k S m c
      → Goes k S (m + 2) (exchange k c t)
  unfolding exchange
  exchange-Goes c t h n v =
      by_option (Goes k S (m + 2)) t.ephemeral _ _
        (λ _. reconnect-Goes c (IsSound-weaken m (m + 1) c (omega arith) v))
        λ e _.
          let d = record c { dh_cli_priv = some e.0; dh_cli_pub = e.1 } in
          let s =
            sends-Sent m (omega (arith, room)) d m_auth_client_hello e.1 t.net
              (λ x. absurd (ground (arith, x))) v in
          let c' = sends d m_auth_client_hello e.1 t.net in
          by_option (Goes k S (m + 2)) (k.ecdh e.0 c'.dh_srv_pub) _ _
            (λ _. reconnect-Goes c' s.sound)
            (λ secret _. derive_keys-Goes c' t secret (s.greeted ∙ h) (s.ready ∙ n) s.sound)

  pub after_hello-Goes :
      (c : Client) (t : Turn)
      → c.enc_ready ≡ false
      → IsSound k S m c
      → Goes k S (m + 2) (after_hello k c t)
  unfolding after_hello
  after_hello-Goes c t n v =
      by_branch (Goes k S (m + 2))
        (not c.server_hello_ok || (c.auth_failed || (c.need_reconnect || not c.running))) _ _
        (λ _. record { sound = stays c v; fits = tt })
        (λ e. exchange-Goes c t (first c.server_hello_ok _ e) n v)
    where
      first : (a b : Bool) → (not a || b) ≡ false → a ≡ true
      first a b e = ground (arith, e)

  pub hello_turn-Goes :
      (c : Client) (t : Turn) (start last retries : ℕ)
      → c.enc_ready ≡ false
      → IsSound k S m c
      → Goes k S (m + 2) (hello_turn k c t start last retries)
  unfolding hello_turn
  hello_turn-Goes c t start last retries n v =
      by_branch (Goes k S (m + 2))
        (c.running && (not c.server_hello_ok && (not c.auth_failed && not c.need_reconnect))) _ _
        (λ _. waits (wait_round start last retries t.now_ms)) (λ _. after_hello-Goes c t n v)
    where
      waits :
          (x : Verdict)
          → Goes k S (m + 2) (elim x [
            | give_up ↦ after_hello k (record c { need_reconnect = true }) t
            | resend ↦
                (sends c m_auth_hello c.nonce_c t.net, hello_wait start t.now_ms (retries + 1))
            | idle ↦ (c, hello_wait start last retries)
          ])
      waits give_up = after_hello-Goes (record c { need_reconnect = true }) t n v
      waits resend =
          let s =
            sends-Sent m (omega (arith, room)) c m_auth_hello c.nonce_c t.net
              (λ x. absurd (ground (arith, x))) v in
          record { sound = over (sends c m_auth_hello c.nonce_c t.net) s.sound; fits = s.ready ∙ n }
      waits idle = record { sound = stays c v; fits = n }
