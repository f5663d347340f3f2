-- ===== src/Queue/Tests.antt =====
-- Queues for two packets.
use scholar_vpn.Prelude.{ℕ, ◌≡◌, refl, true, false, List, [], ◌∷◌, arith}
use scholar_vpn.Queue.{PacketQueue, shut_down, create, push, try_pop, shutdown, pop_until}
use scholar_vpn.Queue.Server
use scholar_vpn.Queue.Laws.{Call, pushes, pops, shuts, Traffic, calls, IsOrdered, calls-IsOrdered}
use scholar_vpn.Queue.Bound.{client_pushes, server_pushes, pushes-take}

abbrev start : Traffic ℕ
start = record {
  queue = record { max_size = 2; queue = []; stopped = false };
  put = [];
  taken = [];
}

-- The third packet finds the queue full, and the fourth finds it shut down.
abbrev traffic : List (Call ℕ)
traffic = pushes 1 ∷ pushes 2 ∷ pushes 3 ∷ pops ∷ shuts ∷ pushes 4 ∷ []

put_in : (calls start traffic).put ≡ 1 ∷ 2 ∷ []
unfolding push try_pop shutdown
put_in = refl

calls-IsOrdered_example : IsOrdered (calls start traffic)
calls-IsOrdered_example =
    calls-IsOrdered start traffic (record { order = refl; bound = omega arith })

abbrev four : List ℕ
four = 1 ∷ 2 ∷ 3 ∷ 4 ∷ []

pushes-take_example :
    ((client_pushes (create 2) four).queue ≡ 1 ∷ 2 ∷ [])
    × ((server_pushes (Server.create 2) four).queue ≡ 1 ∷ 2 ∷ 3 ∷ [])
pushes-take_example = pushes-take 2 four

abbrev empty : PacketQueue ℕ
empty = record { max_size = 2; queue = []; stopped = false }

abbrev shut_with_one : PacketQueue ℕ
shut_with_one = record { max_size = 2; queue = 7 ∷ []; stopped = true }

-- A packet that is there when the queue is shut down during the wait is not given.
left_behind : pop_until empty shut_with_one true ≡ (shut_with_one, shut_down)
unfolding pop_until
left_behind = refl
