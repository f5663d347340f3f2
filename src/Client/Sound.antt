-- ===== src/Client/Sound.antt =====
-- The invariant of the client of src/UDP.cpp, and the frames that it sends and receives.
use scholar_vpn.Prelude.{
  ℕ, ◌+◌, ◌%◌, ◌^◌, ◌<◌, ◌≤◌, ◌≡◌, refl, sym, subst, Bool, true, false, ◌&&◌, List, [], ◌∷◌, ◌++◌,
  Option, some, take, drop, ltb, leb, length, All, arith, by_branch,
}
use scholar_vpn.Server.{Header, m_auth_server_hello, m_identity_ok, Body, plain, sealed}
use scholar_vpn.Client.{Client, Crypto, Outgoing, Net, passed, failed, reset}
use scholar_vpn.Client.Send.{is_encrypted, raw_send, send_body, send_packet, sends}

abbrev pub is_sealed : Body → Bool
is_sealed (plain bytes) = false
is_sealed (sealed key kind bytes) = true

-- A frame of the tunnel is sealed.
abbrev pub Confidential : Outgoing → Type 0
Confidential f = is_encrypted f.kind ≡ true → is_sealed f.body ≡ true

-- The sequence numbers go down from the latest frame on, below a bound.
abbrev pub Descending : ℕ → List Outgoing → Type 0
Descending b [] = Unit
Descending b (f ∷ fs) = (f.sequence < b) × Descending f.sequence fs

-- Which frames come in.
abbrev pub Arrivals : Type 1
Arrivals = Header → List ℕ → Type 0

-- A greeting came in whose signature, over the client's nonce too, is good under the server's key.
pub record Greeted (k : Crypto) (S : Arrivals) (server_sig_pub : Option (List ℕ)) (nonce_c : List ℕ)
    : Type 0 where
  pub hdr : Header
  pub payload : List ℕ
  pub key : List ℕ
  pub came : S hdr payload
  pub is_hello : hdr.kind ≡ m_auth_server_hello
  pub size : length payload ≡ 112
  pub is_key : server_sig_pub ≡ some key
  pub authentic :
      k.verify key (nonce_c ++ (take 16 payload ++ take 32 (drop 16 payload))) (drop 48 payload)
      ≡ true

-- A frame came in that opens, under the key of the server's direction, to a message `m_identity_ok`.
pub record LetIn (k : Crypto) (S : Arrivals) (key_s2c : List ℕ) : Type 0 where
  pub hdr : Header
  pub payload : List ℕ
  pub inner : List ℕ
  pub came : S hdr payload
  pub opens : k.open_sealed key_s2c hdr payload ≡ m_identity_ok ∷ inner

-- What the fields that matter hold; at most `m` frames were numbered.
pub record Holds (G L : Type 0) (m : ℕ) (server_hello_ok enc_ready authenticated handshaked : Bool)
    (seq : ℕ) (sent : List Outgoing) : Type 0 where
  pub hello : enc_ready ≡ true → server_hello_ok ≡ true
  pub keys : authenticated ≡ true → enc_ready ≡ true
  pub done : handshaked ≡ true → authenticated ≡ true
  pub greeted : server_hello_ok ≡ true → G
  pub let_in : authenticated ≡ true → L
  pub count : seq ≤ m
  pub confidential : All Confidential sent
  pub descending : Descending seq sent

abbrev pub IsSound : Crypto → Arrivals → ℕ → Client → Type 0
IsSound k S m c =
    Holds (Greeted k S c.server_sig_pub c.nonce_c) (LetIn k S c.key_s2c) m c.server_hello_ok
      c.enc_ready c.authenticated c.handshaked c.seq c.sent

pub IsSound-weaken :
    {k : Crypto} {S : Arrivals} (m n : ℕ) (c : Client) → m ≤ n → IsSound k S m c → IsSound k S n c
IsSound-weaken m n c h v = record {
  hello = v.hello;
  keys = v.keys;
  done = v.done;
  greeted = v.greeted;
  let_in = v.let_in;
  count = omega (arith, v.count, h);
  confidential = v.confidential;
  descending = v.descending;
}

Descending-weaken : (a b : ℕ) (fs : List Outgoing) → a ≤ b → Descending a fs → Descending b fs
Descending-weaken a b [] h d = tt
Descending-weaken a b (f ∷ fs) h d = (omega (arith, h, d.0), d.1)

-- A call of `send_packet` numbers one frame at most, and changes nothing else of the state.
pub record Sends (m : ℕ) (c c' : Client) : Type 0 where
  pub seq : ℕ
  pub need_reconnect : Bool
  pub sent : List Outgoing
  pub same : c' ≡ record c { seq = seq; need_reconnect = need_reconnect; sent = sent }
  pub count : seq ≤ m + 1
  pub confidential : All Confidential sent
  pub descending : Descending seq sent

module _ {k : Crypto} {S : Arrivals} (m : ℕ) (room : m + 1 < 2 ^ 32) (c : Client)
    (v : IsSound k S m c) where
  abbrev SendsTo : Client × Bool → Type 0
  SendsTo r = Sends m c r.0

  numbered : (r : Bool) → Sends m c (record c { seq = (c.seq + 1) % 2 ^ 32; need_reconnect = r })
  numbered r = record {
    seq = (c.seq + 1) % 2 ^ 32;
    need_reconnect = r;
    sent = c.sent;
    same = refl;
    count = omega (arith, v.count, room);
    confidential = v.confidential;
    descending =
        Descending-weaken c.seq ((c.seq + 1) % 2 ^ 32) c.sent (omega (arith, v.count, room))
          v.descending;
  }

  raw_send-Sends :
      (f : Outgoing) (net : Net)
      → f.sequence ≡ c.seq
      → Confidential f
      → Sends m c (raw_send (record c { seq = (c.seq + 1) % 2 ^ 32 }) f net).0
  unfolding raw_send
  raw_send-Sends f passed e h = record {
    seq = (c.seq + 1) % 2 ^ 32;
    need_reconnect = c.need_reconnect;
    sent = f ∷ c.sent;
    same = refl;
    count = omega (arith, v.count, room);
    confidential = (h, v.confidential);
    descending =
        (omega (arith, e, v.count, room), subst (λ x. Descending x c.sent) (sym e) v.descending);
  }
  raw_send-Sends f failed e h = numbered c.need_reconnect
  raw_send-Sends f reset e h = numbered true

  pub sends-Sends :
      (kind : ℕ) (bytes : List ℕ) (net : Net)
      → (is_encrypted kind ≡ true → c.enc_ready ≡ true)
      → Sends m c (sends c kind bytes net)
  unfolding send_packet send_body
  sends-Sends kind bytes net h =
      by_branch SendsTo (ltb 1400 (length bytes)) _ _ (λ b. unchanged)
        λ b.
          by_branch SendsTo (leb (2 ^ 31) c.seq) _ _ (λ d. numbered true)
            λ d.
              by_branch SendsTo (c.enc_ready && is_encrypted kind) _ _
                (λ e.
                  by_branch SendsTo (ltb 1429 (length bytes + 1 + 28)) _ _
                    (λ f. numbered c.need_reconnect)
                    (λ f.
                      raw_send-Sends
                        (record {
                          kind = kind;
                          sequence = c.seq;
                          body = sealed c.key_c2s kind bytes;
                        })
                        net refl (λ g. refl)))
                (λ e.
                  raw_send-Sends (record { kind = kind; sequence = c.seq; body = plain bytes }) net
                    refl
                    (λ g. absurd (ground (arith, clash c.enc_ready (is_encrypted kind) e g h))))
    where
      unchanged : Sends m c c
      unchanged = record {
        seq = c.seq;
        need_reconnect = c.need_reconnect;
        sent = c.sent;
        same = refl;
        count = omega (arith, v.count);
        confidential = v.confidential;
        descending = v.descending;
      }

      clash : (a b : Bool) → (a && b) ≡ false → b ≡ true → (b ≡ true → a ≡ true) → true ≡ false
      clash a b e g h = let h' = h g in ground (arith, e, g, h')

pub Sends-IsSound :
    {k : Crypto} {S : Arrivals} (m : ℕ) (c c' : Client)
    → IsSound k S m c
    → Sends m c c'
    → IsSound k S (m + 1) c'
Sends-IsSound {k} {S} m c c' v s = subst (IsSound k S (m + 1)) (sym s.same) (record {
  hello = v.hello;
  keys = v.keys;
  done = v.done;
  greeted = v.greeted;
  let_in = v.let_in;
  count = s.count;
  confidential = s.confidential;
  descending = s.descending;
})
