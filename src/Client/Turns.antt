-- ===== src/Client/Turns.antt =====
-- The steps of the client of src/UDP.cpp: `send_work`, with `handle_frame`, `send_ip_packet` and `stop`
-- in any order.
use scholar_vpn.Prelude.{
  ℕ, ◌+◌, ◌-◌, ◌*◌, ◌^◌, ◌<◌, ◌≡◌, refl, sym, ◌∙◌, subst, Bool, true, false, not, List, [], ◌∷◌,
  Option, length, All, arith, by_branch, by_option,
}
use scholar_vpn.Queue.{push}
use scholar_vpn.Server.{Header, m_auth_hello}
use scholar_vpn.Client.{Client, Crypto, Turn, cleared, init, stop}
use scholar_vpn.Client.Receive.{handle_frame}
use scholar_vpn.Client.Work.{
  Stage, hello_wait, identity_wait, flowing, ended, start_work, send_ip_packet, Event, turn, frame,
  from_tun, stopped, step, run,
}
use scholar_vpn.Client.Sound.{Arrivals, Greeted, LetIn, Holds, Confidential, Descending, IsSound}
use scholar_vpn.Client.Keeps.{handle_frame-Handled}
use scholar_vpn.Client.Opening.{Fits, Goes, sends-Sent, stays, over}
use scholar_vpn.Client.Closing.{work-Goes}

-- A frame that comes in among the events.
pub data Came (hdr : Header) (payload : List ℕ) : List Event → Type 0 where
  here : (t : Turn) (es : List Event) → Came hdr payload (frame t hdr payload ∷ es)
  later : (e : Event) (es : List Event) → Came hdr payload es → Came hdr payload (e ∷ es)

kept : (c c' : Client) (s : Stage) → c'.enc_ready ≡ c.enc_ready → Fits c s → Fits c' s
kept c c' (hello_wait start last retries) e h = e ∙ h
kept c c' (identity_wait start last retries msg) e h = e ∙ h
kept c c' (flowing heart) e h = e ∙ h
kept c c' ended e h = tt

module _ {S : Arrivals} (k : Crypto) (m : ℕ) (room : m + 2 < 2 ^ 32) where
  step-Goes :
      (r : Client × Stage) (e : Event) (es : List Event)
      → ((hdr : Header) (payload : List ℕ) → Came hdr payload (e ∷ es) → S hdr payload)
      → Goes k S m r
      → Goes k S (m + 2) (step k r e)
  unfolding step send_ip_packet stop cleared
  step-Goes (c, s) (turn t) es a g = work-Goes k m room c t s g.fits g.sound
  step-Goes (c, s) (frame t hdr payload) es a g =
      by_branch Next c.running _ _
        (λ _.
          let h =
            handle_frame-Handled m (omega (arith, room)) k t c hdr payload
              (a hdr payload (here t es)) g.sound in
          record {
            sound = over k m room (handle_frame k c t hdr payload) h.sound;
            fits = kept c (handle_frame k c t hdr payload) s h.ready g.fits;
          })
        (λ _. same)
    where
      Next : Client → Type 0
      Next c' = Goes k S (m + 2) (c', s)

      same : Next c
      same = record { sound = stays k m room c g.sound; fits = g.fits }
  step-Goes (c, s) (from_tun pkt) es a g =
      by_branch Next c.running _ _
        (λ _. record {
          sound = stays k m room c g.sound;
          fits = kept c (record c { sendqueue = (push c.sendqueue pkt).0 }) s refl g.fits;
        })
        (λ _. record { sound = stays k m room c g.sound; fits = g.fits })
    where
      Next : Client → Type 0
      Next c' = Goes k S (m + 2) (c', s)
  step-Goes (c, s) stopped es a g = record {
    sound = record {
      hello = λ x. absurd (cc);
      keys = λ x. absurd (cc);
      done = λ x. absurd (cc);
      greeted = λ x. absurd (cc);
      let_in = λ x. absurd (cc);
      count = (stays k m room c g.sound).count;
      confidential = g.sound.confidential;
      descending = g.sound.descending;
    };
    fits = tt;
  }

run-Goes :
    {S : Arrivals} (k : Crypto) (m : ℕ) (r : Client × Stage) (es : List Event)
    → ((hdr : Header) (payload : List ℕ) → Came hdr payload es → S hdr payload)
    → m + 2 * length es < 2 ^ 32
    → Goes k S m r
    → Goes k S (m + 2 * length es) (run k r es)
unfolding run
run-Goes {S} k m r [] a h g = subst (λ n. Goes k S n r) (omega arith) g
run-Goes {S} k m r (e ∷ es) a h g =
    subst (λ n. Goes k S n (run k (step k r e) es)) (omega arith)
      (run-Goes k (m + 2) (step k r e) es (λ hdr payload c. a hdr payload (later e es c))
        (omega (arith, h)) (step-Goes k m (omega (arith, h)) r e es a g))

init-IsSound :
    {k : Crypto} {S : Arrivals} (c : Client) (opens : Bool) (nonce : List ℕ) (now : ℕ)
    (key : Option (List ℕ))
    → c.sent ≡ []
    → (init c opens nonce now key).1 ≡ true
    → IsSound k S 0 (init c opens nonce now key).0
unfolding init cleared
init-IsSound {k} {S} c opens nonce now key e =
    by_branch Starts c.running _ _ (λ _ h. absurd (cc))
      λ _.
        by_branch Starts (not opens) _ _ (λ _ h. absurd (cc))
          λ _. by_option Starts key _ _ (λ _ h. absurd (cc)) (λ p _ h. begun)
  where
    Starts : Client × Bool → Type 0
    Starts r = r.1 ≡ true → IsSound k S 0 r.0

    begun : Holds (Greeted k S key nonce) (LetIn k S []) 0 false false false false 0 c.sent
    begun = record {
      hello = λ x. absurd (cc);
      keys = λ x. absurd (cc);
      done = λ x. absurd (cc);
      greeted = λ x. absurd (cc);
      let_in = λ x. absurd (cc);
      count = omega arith;
      confidential = subst (All Confidential) (sym e) tt;
      descending = subst (Descending 0) (sym e) tt;
    }

init-unready :
    (c : Client) (opens : Bool) (nonce : List ℕ) (now : ℕ) (key : Option (List ℕ))
    → (init c opens nonce now key).1 ≡ true
    → (init c opens nonce now key).0.enc_ready ≡ false
unfolding init cleared
init-unready c opens nonce now key =
    by_branch Starts c.running _ _ (λ _ h. absurd (cc))
      λ _.
        by_branch Starts (not opens) _ _ (λ _ h. absurd (cc))
          λ _. by_option Starts key _ _ (λ _ h. absurd (cc)) (λ p _ h. refl)
  where
    Starts : Client × Bool → Type 0
    Starts r = r.1 ≡ true → r.0.enc_ready ≡ false

-- A client that `init` sets up, with nothing sent before, starts `send_work`; then come the turns of
-- its threads, packets of the device and `stop`, in any order, fewer than 2 ^ 31 of them. At the end
-- every frame of an encrypted type that it gave to the socket was sealed, the sequence numbers of all
-- frames rise strictly in the order of sending. A tunnel that is set up was let in by the server: a
-- frame came in that opens, under the key of the server's direction, to `m_identity_ok`. That needs the
-- session keys, which need an authentic greeting: one came in that has the size of a greeting and a
-- good signature, over the client's nonce too, under the server's key that the client holds.
pub run-IsSound :
    (k : Crypto) (c : Client) (opens : Bool) (nonce : List ℕ) (now : ℕ) (key : Option (List ℕ))
    (t : Turn) (es : List Event)
    → c.sent ≡ []
    → (init c opens nonce now key).1 ≡ true
    → length es < 2 ^ 31 - 1
    → IsSound k
        (λ hdr payload. Came hdr payload es)
        (1 + 2 * length es)
        (run k (start_work (init c opens nonce now key).0 t) es).0
unfolding start_work
run-IsSound k c opens nonce now key t es e i h =
    let s =
      sends-Sent {S = λ hdr payload. Came hdr payload es} 0 (omega arith) c' m_auth_hello c'.nonce_c
        t.net (λ x. absurd (ground (arith, x))) (init-IsSound c opens nonce now key e i) in
    (run-Goes k 1 (start_work c' t) es (λ hdr payload a. a) (omega (arith, h))
      (record { sound = s.sound; fits = s.ready ∙ unready })).sound
  where
    c' : Client
    c' = (init c opens nonce now key).0

    unready : c'.enc_ready ≡ false
    unready = init-unready c opens nonce now key i
