-- ===== src/Queue/Server.antt =====
-- `PacketQueue` of server/Buffer/QueueBuffer.cpp.
use scholar_vpn.Prelude.{
  ℕ, Bool, true, false, List, [], ◌∷◌, ◌++◌, Option, none, some, ltb, if◌then◌else◌, length,
}

pub record QueueBuffer {ℓ} (A : Type ℓ) : Type ℓ where
  pub max_size : ℕ
  pub queue : List A
  pub stopped : Bool

module _ {ℓ} {A : Type ℓ} where
  unfoldable pub create : ℕ → QueueBuffer A
  create n = record { max_size = n; queue = []; stopped = false }

  unfoldable pub set_max_size : QueueBuffer A → ℕ → QueueBuffer A
  set_max_size q n = record q { max_size = n }

  unfoldable pub push : QueueBuffer A → A → QueueBuffer A × Bool
  push q x =
      if q.stopped
      then (q, false)
      else if ltb q.max_size (length q.queue)
      then (q, false)
      else (record q { queue = q.queue ++ (x ∷ []) }, true)

  unfoldable pub pop : QueueBuffer A → QueueBuffer A × Option A
  pop q =
      if q.stopped
      then (q, none)
      else (elim q.queue [ [] ↦ (q, none) | x ∷ xs ↦ (record q { queue = xs }, some x) ])

  unfoldable pub shutdown : QueueBuffer A → QueueBuffer A
  shutdown q = record q { stopped = true }

-- The queue that a move takes from, and the new one.
unfoldable pub move {ℓ} : {A : Type ℓ} → QueueBuffer A → QueueBuffer A × QueueBuffer A
move other = (record { max_size = 0; queue = []; stopped = false }, other)
