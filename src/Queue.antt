-- ===== src/Queue.antt =====
-- The bounded queues of packets: src/PacketQueue.cpp of the client, and in Queue/Server that of
-- server/Buffer/QueueBuffer.cpp. Each operation runs under the queue's mutex, as one step.
pub mod Server
pub mod Laws
pub mod Bound
mod Tests
use scholar_vpn.Prelude.{
  ℕ, ◌+◌, Bool, true, false, List, [], ◌∷◌, ◌++◌, Option, none, some, leb, if◌then◌else◌, length,
}

pub record PacketQueue {ℓ} (A : Type ℓ) : Type ℓ where
  pub max_size : ℕ
  pub queue : List A
  pub stopped : Bool

module _ {ℓ} {A : Type ℓ} where
  unfoldable pub create : ℕ → PacketQueue A
  create n = record { max_size = n; queue = []; stopped = false }

  unfoldable pub push : PacketQueue A → A → PacketQueue A × Bool
  push q x =
      if q.stopped
      then (q, false)
      else if leb q.max_size (length q.queue)
      then (q, false)
      else (record q { queue = q.queue ++ (x ∷ []) }, true)

  unfoldable pub try_pop : PacketQueue A → PacketQueue A × Option A
  try_pop q = elim q.queue [ [] ↦ (q, none) | x ∷ xs ↦ (record q { queue = xs }, some x) ]

  unfoldable pub shutdown : PacketQueue A → PacketQueue A
  shutdown q = record q { stopped = true }

  -- Where the wait ends: `none` while it goes on.
  unfoldable pub pop : PacketQueue A → Option (PacketQueue A × Option A)
  unfolding try_pop
  pop q = elim q.queue [
    | [] ↦ if q.stopped then some (q, none) else none
    | x ∷ xs ↦ some (try_pop q)
  ]

pub data PopResult {ℓ} (A : Type ℓ) : Type ℓ where
  got : A → PopResult A
  timeout shut_down : PopResult A

-- The queue when the call starts, and the queue when its wait ends: the latter is not looked at where
-- the call does not wait. `woke` tells that the wait ended before the deadline.
unfoldable pub pop_until {ℓ} :
    {A : Type ℓ} → PacketQueue A → PacketQueue A → Bool → PacketQueue A × PopResult A
pop_until q later woke = elim q.queue [
  | x ∷ xs ↦ (record q { queue = xs }, got x)
  | [] ↦
      if q.stopped
      then (q, shut_down)
      else if later.stopped
      then (later, shut_down)
      else if woke
      then (elim later.queue [
        | [] ↦ (later, timeout)
        | x ∷ xs ↦ (record later { queue = xs }, got x)
      ])
      else (later, timeout)
]
