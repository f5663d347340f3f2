-- ===== src/Client/Agreed.antt =====
-- The key exchange between `send_work` of src/UDP.cpp and `handle_auth_client_hello` of
-- server/UDP/UDP.cpp.
use scholar_vpn.Prelude.{
  on_false, ℕ, ◌+◌, ◌%◌, ◌^◌, ◌≡◌, refl, sym, ap, ◌∙◌, subst, Bool, true, false, not, ◌&&◌, ◌||◌,
  List, ◌∷◌, Option, none, some, ltb, leb, ◌==◌, ==_iff, length, arith, by_branch, by_option,
}
use scholar_vpn.Server.{
  Session, Server, Outside, is_hello, hs_keys, m_auth_client_hello, m_identity,
}
use scholar_vpn.Server.Table.{put_session}
use scholar_vpn.Server.Auth.{is_empty, derive_keys, exchange, handle_auth_client_hello}
use scholar_vpn.Client.{Client, Outgoing, Crypto, Net, passed, failed, reset, Turn}
use scholar_vpn.Client.Send.{is_encrypted, raw_send, send_body, send_packet, sends}
use scholar_vpn.Client.Message.{build_identity_message}
use scholar_vpn.Client.Work.{Stage, reconnect, begin_identity}
use scholar_vpn.Client.Work

-- A send changes the number, the log and the wish for a new connection alone.
record Sole (c c' : Client) : Type 0 where
  pub seq : ℕ
  pub need_reconnect : Bool
  pub sent : List Outgoing
  pub same : c' ≡ record c { seq = seq; need_reconnect = need_reconnect; sent = sent }

raw_send-Sole :
    (c : Client) (n : ℕ) (f : Outgoing) (net : Net)
    → Sole c (raw_send (record c { seq = n }) f net).0
unfolding raw_send
raw_send-Sole c n f passed = record {
  seq = n;
  need_reconnect = c.need_reconnect;
  sent = f ∷ c.sent;
  same = refl;
}
raw_send-Sole c n f failed = record {
  seq = n;
  need_reconnect = c.need_reconnect;
  sent = c.sent;
  same = refl;
}
raw_send-Sole c n f reset = record { seq = n; need_reconnect = true; sent = c.sent; same = refl }

sends-Sole : (c : Client) (kind : ℕ) (bytes : List ℕ) (net : Net) → Sole c (sends c kind bytes net)
unfolding send_packet send_body
sends-Sole c kind bytes net =
    by_branch To (ltb 1400 (length bytes)) _ _
      (λ _. record { seq = c.seq; need_reconnect = c.need_reconnect; sent = c.sent; same = refl })
      λ _.
        by_branch To (leb (2 ^ 31) c.seq) _ _
          (λ _. record { seq = n; need_reconnect = true; sent = c.sent; same = refl })
          λ _.
            by_branch To (c.enc_ready && is_encrypted kind) _ _
              (λ _.
                by_branch To (ltb 1429 (length bytes + 1 + 28)) _ _
                  (λ _. record {
                    seq = n;
                    need_reconnect = c.need_reconnect;
                    sent = c.sent;
                    same = refl;
                  })
                  (λ _. raw_send-Sole c n _ net))
              (λ _. raw_send-Sole c n _ net)
  where
    n : ℕ
    n = (c.seq + 1) % 2 ^ 32

    To : Client × Bool → Type 0
    To r = Sole c r.0

-- The server after `sv`: the session `s` has the keys and the public key of the client `c'`, is in the
-- second stage, ready to seal, and without its private key, and is otherwise as it was; so is the rest
-- of the server.
pub record Agreed (sv sv' : Server) (s : Session) (c' : Client) : Type 0 where
  pub stored :
      sv'
      ≡ put_session sv (record s {
        dh_cli_pub = c'.dh_cli_pub;
        key_c2s = c'.key_c2s;
        key_s2c = c'.key_s2c;
        dh_srv_priv = none;
        hs_stage = hs_keys;
        enc_ready = true;
      })
  pub client_ready : c'.enc_ready ≡ true
  pub nonce_c : c'.nonce_c ≡ s.nonce_c
  pub nonce_s : c'.nonce_s ≡ s.nonce_s
  pub dh_srv_pub : c'.dh_srv_pub ≡ s.dh_srv_pub

on_some :
    {A B : Type 0} (o : Option A) (x : B) (f : A → B) (a : A)
    → o ≡ some a
    → (elim o [ none ↦ x | some b ↦ f b ]) ≡ f a
on_some none x f a e = absurd (cc)
on_some (some b) x f a e = ap f (cc)

-- The session of the server with the keys.
abbrev keyed : Session → List ℕ → List ℕ × List ℕ → Session
keyed s cpub keys = record s {
  dh_cli_pub = cpub;
  key_c2s = keys.0;
  key_s2c = keys.1;
  dh_srv_priv = none;
  hs_stage = hs_keys;
  enc_ready = true;
}

server-keyed :
    (out : Outside) (sv : Server) (s : Session) (sp cpub z : List ℕ) (keys : List ℕ × List ℕ)
    → length cpub ≡ 32
    → is_hello s.hs_stage ≡ true
    → is_empty s.nonce_c ≡ false
    → is_empty s.nonce_s ≡ false
    → s.dh_srv_priv ≡ some sp
    → out.ecdh sp cpub ≡ some z
    → out.derive z s.nonce_c s.nonce_s ≡ some keys
    → handle_auth_client_hello out sv s cpub ≡ put_session sv (keyed s cpub keys)
unfolding handle_auth_client_hello exchange derive_keys
server-keyed out sv s sp cpub z keys l g a b p e d =
    on_false (not (length cpub == 32)) _ _ (long (length cpub) l)
    ∙ on_false (not (is_hello s.hs_stage)) _ _ (ap not g)
    ∙ on_false (is_empty s.nonce_c || is_empty s.nonce_s) _ _ (neither (is_empty s.nonce_c) _ a b)
    ∙ on_some s.dh_srv_priv _ _ sp p
    ∙ on_some (out.ecdh sp cpub) _ _ z e
    ∙ on_some (out.derive z s.nonce_c s.nonce_s) _ _ keys d
  where
    long : (n : ℕ) → n ≡ 32 → not (n == 32) ≡ false
    long n h = ground (arith, h, ==_iff n 32)

    neither : (a b : Bool) → a ≡ false → b ≡ false → (a || b) ≡ false
    neither a b g h = ground (arith, g, h)

-- The client with the keys, after the exchange.
abbrev Keyed : Client → List ℕ → List ℕ × List ℕ → Client → Type 0
Keyed c cpub keys c' =
    (c'.key_c2s ≡ keys.0)
    × (c'.key_s2c ≡ keys.1)
    × (c'.enc_ready ≡ true)
    × (c'.nonce_c ≡ c.nonce_c)
    × (c'.nonce_s ≡ c.nonce_s)
    × (c'.dh_cli_pub ≡ cpub)
    × (c'.dh_srv_pub ≡ c.dh_srv_pub)

client-Keyed :
    (k : Crypto) (c : Client) (t : Turn) (cp cpub z : List ℕ) (keys : List ℕ × List ℕ)
    → t.ephemeral ≡ some (cp, cpub)
    → k.ecdh cp c.dh_srv_pub ≡ some z
    → k.derive z c.nonce_c c.nonce_s ≡ some keys
    → Keyed c cpub keys (Work.exchange k c t).0
unfolding Work.exchange Work.derive_keys begin_identity
client-Keyed k c t cp cpub z keys p e d =
    subst (λ (r : Client × Stage). Keyed c cpub keys r.0) (sym steps)
      (by_option Good (build_identity_message k e2) _ _ (λ _. told)
        (λ msg _.
          subst (Keyed c cpub keys) (sym (sends-Sole e2 m_identity msg t.net_next).same) told))
  where
    Good : Client × Stage → Type 0
    Good r = Keyed c cpub keys r.0

    c1 : Client
    c1 =
        sends (record c { dh_cli_priv = some cp; dh_cli_pub = cpub }) m_auth_client_hello cpub t.net

    e2 : Client
    e2 = record c1 { key_c2s = keys.0; key_s2c = keys.1; enc_ready = true }

    s : Sole (record c { dh_cli_priv = some cp; dh_cli_pub = cpub }) c1
    s =
        sends-Sole (record c { dh_cli_priv = some cp; dh_cli_pub = cpub }) m_auth_client_hello cpub
          t.net

    told : Keyed c cpub keys e2
    told = (
      refl,
      refl,
      refl,
      ap (λ x. x.nonce_c) s.same,
      ap (λ x. x.nonce_s) s.same,
      ap (λ x. x.dh_cli_pub) s.same,
      ap (λ x. x.dh_srv_pub) s.same,
    )

    steps : Work.exchange k c t ≡ begin_identity k e2 t
    steps =
        on_some t.ephemeral _ _ (cp, cpub) p
        ∙ on_some (k.ecdh cp c1.dh_srv_pub) _ _ z (ap (λ x. k.ecdh cp x.dh_srv_pub) s.same ∙ e)
        ∙ on_some (k.derive z c1.nonce_c c1.nonce_s) _ _ keys
            (ap (λ x. k.derive z x.nonce_c x.nonce_s) s.same ∙ d)

-- The client makes an ephemeral key and sends its public part; the server, whose session is in the
-- first stage, has its own private key and the same nonces, and whose public key the client holds, gets
-- that part. Where the exchange gives both ends one secret and the derivation one pair of keys, the
-- client then has its keys and is ready to seal frames, on the nonces and the server's public key that
-- the session has; the session of the server has the same keys, each in its direction, and the client's
-- public key, is ready to seal frames, in the second stage, and without its private key; no other field
-- of the session and nothing else of the server changes. What becomes of the client's frames at its
-- socket does not matter for its own keys.
pub exchange-Agreed :
    (k : Crypto) (out : Outside) (sv : Server) (s : Session) (c : Client) (t : Turn)
    (cp cpub sp z : List ℕ) (keys : List ℕ × List ℕ)
    → t.ephemeral ≡ some (cp, cpub)
    → length cpub ≡ 32
    → is_hello s.hs_stage ≡ true
    → s.dh_srv_priv ≡ some sp
    → is_empty s.nonce_c ≡ false
    → is_empty s.nonce_s ≡ false
    → s.nonce_c ≡ c.nonce_c
    → s.nonce_s ≡ c.nonce_s
    → s.dh_srv_pub ≡ c.dh_srv_pub
    → k.ecdh cp c.dh_srv_pub ≡ some z
    → out.ecdh sp cpub ≡ some z
    → k.derive z c.nonce_c c.nonce_s ≡ some keys
    → out.derive z s.nonce_c s.nonce_s ≡ some keys
    → Agreed sv (handle_auth_client_hello out sv s cpub) s (Work.exchange k c t).0
exchange-Agreed k out sv s c t cp cpub sp z keys p l g q a b n m o e f d h =
    let r = client-Keyed k c t cp cpub z keys p e d in
    record {
      stored = server-keyed out sv s sp cpub z keys l g a b q f h ∙ λ i. put_session sv (record s {
        dh_cli_pub = sym r.5 i;
        key_c2s = sym r.0 i;
        key_s2c = sym r.1 i;
        dh_srv_priv = none;
        hs_stage = hs_keys;
        enc_ready = true;
      });
      client_ready = r.2;
      nonce_c = r.3 ∙ sym n;
      nonce_s = r.4 ∙ sym m;
      dh_srv_pub = r.6 ∙ sym o;
    }
