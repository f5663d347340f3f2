-- ===== src/Client/Keeps.antt =====
-- The invariant of the client of src/UDP.cpp over `handle_frame`.
use scholar_vpn.Prelude.{
  ℕ, ◌+◌, ◌^◌, ◌<◌, ◌≡◌, refl, ap, true, not, List, [], ◌∷◌, ◌++◌, ◌==◌, ==_iff, length, take, drop,
  arith, by_branch, by_option, is_not,
}
use scholar_vpn.Replay.{accept, too_old}
use scholar_vpn.Server.{
  Header, m_data, m_heart, m_heart_response, m_disconnect, m_identity_ok, m_identity_deny,
  m_auth_server_hello,
}
use scholar_vpn.Client.{Client, Crypto, Turn}
use scholar_vpn.Client.Send.{is_encrypted}
use scholar_vpn.Client.Receive.{
  identity_ok, identity_deny, deliver, handle_inner, opened, handle_sealed, server_hello,
  handle_frame,
}
use scholar_vpn.Client.Sound.{
  Arrivals, Greeted, LetIn, IsSound, IsSound-weaken, Sends, sends-Sends, Sends-IsSound,
}

-- A frame that comes in neither gives nor takes the keys, and does not end the hand-shake.
pub record Handled (k : Crypto) (S : Arrivals) (m : ℕ) (c c' : Client) : Type 0 where
  pub sound : IsSound k S (m + 1) c'
  pub ready : c'.enc_ready ≡ c.enc_ready

module _ {S : Arrivals} (m : ℕ) (room : m + 1 < 2 ^ 32) (k : Crypto) (t : Turn) where
  same : (c : Client) → IsSound k S m c → Handled k S m c c
  same c v = record { sound = IsSound-weaken m (m + 1) c (omega arith) v; ready = refl }

  sent-Handled : (c c' : Client) → IsSound k S m c → Sends m c c' → Handled k S m c c'
  sent-Handled c c' v s = record {
    sound = Sends-IsSound m c c' v s;
    ready = ap (λ x. x.enc_ready) s.same;
  }

  with_keys :
      (c : Client)
      → LetIn k S c.key_s2c
      → c.enc_ready ≡ true
      → IsSound k S m c
      → IsSound k S (m + 1) (record c { authenticated = true })
  with_keys c l h v = record {
    hello = v.hello;
    keys = λ _. h;
    done = λ _. refl;
    greeted = v.greeted;
    let_in = λ _. l;
    count = omega (arith, v.count);
    confidential = v.confidential;
    descending = v.descending;
  }

  greeted :
      (c : Client)
      → Greeted k S c.server_sig_pub c.nonce_c
      → IsSound k S m c
      → IsSound k S (m + 1) (record c { server_hello_ok = true })
  greeted c g v = record {
    hello = λ _. refl;
    keys = v.keys;
    done = v.done;
    greeted = λ _. g;
    let_in = v.let_in;
    count = omega (arith, v.count);
    confidential = v.confidential;
    descending = v.descending;
  }

  ok-Handled :
      (c : Client) (inner : List ℕ)
      → LetIn k S c.key_s2c
      → c.enc_ready ≡ true
      → IsSound k S m c
      → Handled k S m c (identity_ok c inner)
  unfolding identity_ok
  ok-Handled c (a ∷ b ∷ d ∷ e ∷ p ∷ rest) l h v = record { sound = with_keys c l h v; ready = refl }
  ok-Handled c (a ∷ b ∷ d ∷ e ∷ []) l h v = record { sound = with_keys c l h v; ready = refl }
  ok-Handled c (a ∷ b ∷ d ∷ []) l h v = record { sound = with_keys c l h v; ready = refl }
  ok-Handled c (a ∷ b ∷ []) l h v = record { sound = with_keys c l h v; ready = refl }
  ok-Handled c (a ∷ []) l h v = record { sound = with_keys c l h v; ready = refl }
  ok-Handled c [] l h v = record { sound = with_keys c l h v; ready = refl }

  deny-Handled :
      (c : Client) (inner : List ℕ) → IsSound k S m c → Handled k S m c (identity_deny c inner)
  unfolding identity_deny
  deny-Handled c [] v = record { sound = (same c v).sound; ready = refl }
  deny-Handled c (r ∷ rs) v = record { sound = (same c v).sound; ready = refl }

  deliver-Handled :
      (c : Client) (inner : List ℕ) → IsSound k S m c → Handled k S m c (deliver c inner)
  deliver-Handled c [] v = same c v
  deliver-Handled c (b ∷ bs) v = record { sound = (same c v).sound; ready = refl }

  inner-Handled :
      (c : Client) (bytes : List ℕ)
      → ((inner : List ℕ) → bytes ≡ m_identity_ok ∷ inner → LetIn k S c.key_s2c)
      → c.enc_ready ≡ true
      → IsSound k S m c
      → Handled k S m c (handle_inner c t bytes)
  unfolding handle_inner
  inner-Handled c [] f h v = same c v
  inner-Handled c (kind ∷ inner) f h v =
      by_branch (Handled k S m c) (kind == m_data) _ _ (λ _. deliver-Handled c inner v)
        λ _.
          by_branch (Handled k S m c) (kind == m_heart) _ _
            (λ _. sent-Handled c _ v (sends-Sends m room c v m_heart_response [] t.net (λ _. h)))
            λ _.
              by_branch (Handled k S m c) (kind == m_identity_ok) _ _
                (λ e.
                  ok-Handled c inner
                    (f inner (ap (λ x. x ∷ inner) ((==_iff kind m_identity_ok).0 e))) h v)
                λ _.
                  by_branch (Handled k S m c) (kind == m_identity_deny) _ _
                    (λ _. deny-Handled c inner v)
                    λ _.
                      by_branch (Handled k S m c) (kind == m_disconnect) _ _
                        (λ _. record { sound = (same c v).sound; ready = refl }) (λ _. same c v)

  opened-Handled :
      (c : Client) (seq : ℕ) (bytes : List ℕ)
      → ((inner : List ℕ) → bytes ≡ m_identity_ok ∷ inner → LetIn k S c.key_s2c)
      → c.enc_ready ≡ true
      → IsSound k S m c
      → Handled k S m c (opened c t seq bytes)
  opened-Handled c seq [] f h v = same c v
  opened-Handled c seq (b ∷ bs) f h v =
      by_branch (Handled k S m c) (accept c.replay seq).1 _ _
        (λ _.
          let r =
            inner-Handled (record c { replay = (accept c.replay seq).0; last_rx_ms = t.now_ms })
              (b ∷ bs) f h v in
          record { sound = r.sound; ready = r.ready })
        (λ _. record { sound = (same c v).sound; ready = refl })

  sealed-Handled :
      (c : Client) (hdr : Header) (payload : List ℕ)
      → S hdr payload
      → IsSound k S m c
      → Handled k S m c (handle_sealed k c t hdr payload)
  unfolding handle_sealed
  sealed-Handled c hdr payload a v =
      by_branch (Handled k S m c) (not c.enc_ready) _ _ (λ _. same c v)
        λ e.
          by_branch (Handled k S m c) (too_old c.replay hdr.sequence) _ _ (λ _. same c v)
            (λ _.
              opened-Handled c hdr.sequence (k.open_sealed c.key_s2c hdr payload)
                (λ inner e. record {
                  hdr = hdr;
                  payload = payload;
                  inner = inner;
                  came = a;
                  opens = e;
                })
                (is_not c.enc_ready e) v)

  hello-Handled :
      (c : Client) (hdr : Header) (payload : List ℕ)
      → S hdr payload
      → hdr.kind ≡ m_auth_server_hello
      → IsSound k S m c
      → Handled k S m c (server_hello k c payload)
  unfolding server_hello
  hello-Handled c hdr payload a d v =
      by_branch (Handled k S m c) (not (length payload == 112)) _ _ (λ _. same c v)
        λ n.
          by_option (Handled k S m c) c.server_sig_pub _ _
            (λ _. record { sound = (same c v).sound; ready = refl })
            λ key e.
              by_branch (Handled k S m c)
                (k.verify key (c.nonce_c ++ (take 16 payload ++ take 32 (drop 16 payload)))
                  (drop 48 payload))
                _ _
                (λ g. record {
                  sound =
                      greeted c
                        (record {
                          hdr = hdr;
                          payload = payload;
                          key = key;
                          came = a;
                          is_hello = d;
                          size = (==_iff (length payload) 112).0 (is_not _ n);
                          is_key = e;
                          authentic = g;
                        })
                        v;
                  ready = refl;
                })
                (λ _. record { sound = (same c v).sound; ready = refl })

  pub handle_frame-Handled :
      (c : Client) (hdr : Header) (payload : List ℕ)
      → S hdr payload
      → IsSound k S m c
      → Handled k S m c (handle_frame k c t hdr payload)
  unfolding handle_frame
  handle_frame-Handled c hdr payload a v =
      by_branch (Handled k S m c) (is_encrypted hdr.kind) _ _
        (λ _. sealed-Handled c hdr payload a v)
        λ _.
          by_branch (Handled k S m c) (hdr.kind == m_auth_server_hello) _ _
            (λ d. hello-Handled c hdr payload a ((==_iff hdr.kind m_auth_server_hello).0 d) v)
            (λ _. same c v)
