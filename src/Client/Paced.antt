-- ===== src/Client/Paced.antt =====
-- The rounds of the two waits of `send_work` of src/UDP.cpp, with the time.
use scholar_vpn.Prelude.{
  ℕ, ◌+◌, ◌-◌, ◌*◌, ◌<◌, ◌≤◌, ◌≡◌, true, not, ◌&&◌, ◌||◌, List, [], ◌∷◌, ltb, leb, arith, by_branch,
  by_option,
}
use scholar_vpn.Queue.{PopResult, got, timeout, shut_down, pop_until}
use scholar_vpn.Server.{m_heart}
use scholar_vpn.Client.{Client, Crypto, Turn}
use scholar_vpn.Client.Send.{sends}
use scholar_vpn.Client.Message.{build_identity_message}
use scholar_vpn.Client.Work.{
  k_auth_timeout, k_auth_retry_interval, k_auth_max_retries, k_heartbeat_interval, Stage,
  hello_wait, identity_wait, flowing, ended, Verdict, give_up, resend, idle, wait_round,
  begin_identity, derive_keys, exchange, after_hello, hello_turn, after_identity, identity_turn,
  finish, send_data, take_packet, is_silent, watch, flow_turn, work, Event, turn, frame, from_tun,
  stopped,
}

-- Each turn begins at most `gap` behind the one before, and its sends take `gap` at most.
abbrev pub Ticking : ℕ → ℕ → List Event → Type 0
Ticking gap now [] = Unit
Ticking gap now (turn t ∷ es) =
    (t.now_ms ≤ now + gap)
    × (t.now_ms ≤ t.sent_ms)
    × (t.sent_ms ≤ t.now_ms + gap)
    × Ticking gap t.now_ms es
Ticking gap now (frame t hdr payload ∷ es) = Ticking gap now es
Ticking gap now (from_tun pkt ∷ es) = Ticking gap now es
Ticking gap now (stopped ∷ es) = Ticking gap now es

-- The time where the last turn begins.
abbrev pub clock : ℕ → List Event → ℕ
clock now [] = now
clock now (turn t ∷ es) = clock t.now_ms es
clock now (frame t hdr payload ∷ es) = clock now es
clock now (from_tun pkt ∷ es) = clock now es
clock now (stopped ∷ es) = clock now es

-- A wait after `retries` retries, the last one at `last`, each at most 540 ms behind the one before,
-- the first frame at most 40 ms behind the start.
pub record Waits (start last retries now : ℕ) : Type 0 where
  pub most : retries ≤ 10
  pub slow : last ≤ start + 40 + 540 * retries
  pub near : now < last + 500

abbrev pub Paced : ℕ → ℕ → Stage → Type 0
Paced begin now (hello_wait start last retries) = (start ≡ begin) × Waits start last retries now
Paced begin now (identity_wait start last retries msg) =
    (start ≤ begin + 5980) × Waits start last retries now
Paced begin now (flowing heart) = Unit
Paced begin now ended = Unit

-- What a round makes of a wait, where it goes on.
round-Waits :
    {A : Type 0} (P : A → Type 0) (start last retries now next : ℕ) (out again same : A)
    → next ≤ now + 40
    → Waits start last retries now
    → P out
    → (Waits start next (retries + 1) next → P again)
    → (Waits start last retries next → P same)
    → P (elim (wait_round start last retries next) [ give_up ↦ out | resend ↦ again | idle ↦ same ])
unfolding wait_round
round-Waits {A} P start last retries now next out again same gap w h g f =
    by_branch Round (ltb k_auth_timeout (next - start)) _ _ (λ _. h)
      λ _.
        by_branch Round (leb k_auth_retry_interval (next - last)) _ _
          (λ e.
            by_branch Round (ltb k_auth_max_retries (retries + 1)) _ _ (λ _. h)
              (λ d. g (record {
                most = ground (arith, d);
                slow = ground (arith, w.slow, w.near, gap);
                near = omega arith;
              })))
          (λ e. f (record { most = w.most; slow = w.slow; near = ground (arith, e) }))
  where
    Round : Verdict → Type 0
    Round v = P (elim v [ give_up ↦ out | resend ↦ again | idle ↦ same ])

module _ (begin now : ℕ) (t : Turn) (gap : t.now_ms ≤ now + 40) where
  abbrev Next : Client × Stage → Type 0
  Next r = Paced begin t.now_ms r.1

  module _ (k : Crypto) (near : t.now_ms < begin + 5980) (rises : t.now_ms ≤ t.sent_ms)
      (brief : t.sent_ms ≤ t.now_ms + 40) where
    begins : (c : Client) → Next (begin_identity k c t)
    unfolding begin_identity
    begins c =
        by_option Next (build_identity_message k c) _ _ (λ _. tt)
          λ msg _. (
            omega (arith, near),
            record { most = omega arith; slow = omega (arith, brief); near = omega (arith, rises) },
          )

    after_hello-Paced : (c : Client) → Next (after_hello k c t)
    unfolding after_hello exchange derive_keys
    after_hello-Paced c =
        by_branch Next
          (not c.server_hello_ok || (c.auth_failed || (c.need_reconnect || not c.running))) _ _
          (λ _. tt)
          λ _.
            by_option Next t.ephemeral _ _ (λ _. tt)
              λ e _.
                by_option Next (k.ecdh e.0 _) _ _ (λ _. tt)
                  λ secret _. by_option Next (k.derive secret _ _) _ _ (λ _. tt) λ p _. begins _

    hello-Paced :
        (c : Client) (start last retries : ℕ)
        → start ≡ begin
        → Waits start last retries now
        → Next (hello_turn k c t start last retries)
    unfolding hello_turn
    hello-Paced c start last retries e w =
        by_branch Next
          (c.running && (not c.server_hello_ok && (not c.auth_failed && not c.need_reconnect))) _ _
          (λ _.
            round-Waits Next start last retries now t.now_ms _ _ _ gap w
              (after_hello-Paced (record c { need_reconnect = true })) (λ v. (e, v)) (λ v. (e, v)))
          (λ _. after_hello-Paced c)

  after_identity-Paced : (c : Client) → Next (after_identity c t)
  unfolding after_identity
  after_identity-Paced c = by_branch Next (not c.authenticated) _ _ (λ _. tt) (λ _. tt)

  identity-Paced :
      (c : Client) (start last retries : ℕ) (msg : List ℕ)
      → start ≤ begin + 5980
      → Waits start last retries now
      → Next (identity_turn c t start last retries msg)
  unfolding identity_turn
  identity-Paced c start last retries msg e w =
      by_branch Next
        (c.running && (not c.authenticated && (not c.auth_failed && not c.need_reconnect))) _ _
        (λ _.
          round-Waits Next start last retries now t.now_ms _ _ _ gap w
            (after_identity-Paced (record c { need_reconnect = true })) (λ v. (e, v)) (λ v. (e, v)))
        (λ _. after_identity-Paced c)

  finish-Paced : (c : Client) → Next (finish c t)
  unfolding finish
  finish-Paced c = by_branch Next (c.handshaked && not c.need_reconnect) _ _ (λ _. tt) (λ _. tt)

  popped-Paced :
      (c : Client) (heart : ℕ) (r : PopResult (List ℕ))
      → Next (elim r [
        | shut_down ↦ finish c t
        | timeout ↦ (c, flowing heart)
        | got pkt ↦ (send_data c t pkt, flowing heart)
      ])
  popped-Paced c heart shut_down = finish-Paced c
  popped-Paced c heart timeout = tt
  popped-Paced c heart (got pkt) = tt

  watch-Paced : (c : Client) (heart : ℕ) → Next (watch c t heart)
  unfolding watch take_packet
  watch-Paced c heart =
      by_branch Next (is_silent c t.now_ms) _ _
        (λ _. finish-Paced (record c { need_reconnect = true }))
        (λ _.
          popped-Paced (record c { sendqueue = (pop_until c.sendqueue t.later t.woke).0 }) heart
            (pop_until c.sendqueue t.later t.woke).1)

  flow-Paced : (c : Client) (heart : ℕ) → Next (flow_turn c t heart)
  unfolding flow_turn
  flow-Paced c heart =
      by_branch Next (not c.running || c.need_reconnect) _ _ (λ _. finish-Paced c)
        λ _.
          by_branch Next (leb k_heartbeat_interval (t.now_ms - heart)) _ _
            (λ _. watch-Paced (sends c m_heart [] t.net) t.now_ms) (λ _. watch-Paced c heart)

  pub work-Paced :
      (k : Crypto) (c : Client) (s : Stage)
      → t.now_ms ≤ t.sent_ms
      → t.sent_ms ≤ t.now_ms + 40
      → Paced begin now s
      → Next (work k c t s)
  unfolding work
  work-Paced k c (hello_wait start last retries) rises brief (e, w) =
      hello-Paced k (ground (arith, e, w.most, w.slow, w.near, gap)) rises brief c start last
        retries e w
  work-Paced k c (identity_wait start last retries msg) rises brief (e, w) =
      identity-Paced c start last retries msg e w
  work-Paced k c (flowing heart) rises brief p = flow-Paced c heart
  work-Paced k c ended rises brief p = tt
