-- ===== src/Reconnect.antt =====
-- `ReconnectManager::worker_loop` of src/reconnect_manager.cpp. Each attempt to connect meets one
-- `Outcome` of the network and of the calls of `stop`; the worker is run over a list of them.
pub mod Laws
mod Tests
use Prim.Native.Nat.{min}
use scholar_vpn.Prelude.{
  ℕ, ◌+◌, ◌*◌, Bool, true, false, not, ◌&&◌, List, [], ◌∷◌, Option, none, some, leb, ◌==◌,
  if◌then◌else◌,
}

-- Milliseconds.
abbrev pub k_min_backoff : ℕ
k_min_backoff = 500

-- For how long an attempt waits for the hand-shake.
abbrev pub k_handshake_wait : ℕ
k_handshake_wait = 12000

abbrev pub k_max_backoff : ℕ
k_max_backoff = 5000

abbrev pub k_max_connect_retries : ℕ
k_max_connect_retries = 5

pub data ConnState : Type 0 where
  stopped connecting connected reconnecting error : ConnState

pub data Outcome : Type 0 where
  -- The constructor of the tunnel throws: the address is no IPv4 literal.
  invalid : Outcome
  -- `init` fails or the hand-shake does not end in time (`none`), or the tunnel asks for a new
  -- connection with the server's reason for a refusal.
  failed : Option ℕ → Outcome
  -- `stop` is called while `connect_once` waits; the flag is `is_handshaked`.
  halted : Bool → Outcome
  -- The connection stands and is lost again.
  lost : Outcome
  -- The connection stands until `stop` is called.
  stopped_later : Outcome
  -- `stop` is called before the attempt, as it may be while the worker sleeps.
  halted_before : Outcome
  -- A callback throws when the connection stands.
  threw : Outcome

-- The variables of the loop and the members that it writes. `states` and `sleeps` list what the
-- worker reported and how long it slept, the latest first.
pub record Worker : Type 0 where
  pub backoff : ℕ
  pub first_attempt : Bool
  pub retry_count : ℕ
  pub gave_up : Bool
  pub running : Bool
  pub ended : Bool
  pub register_token : List ℕ
  pub tokens_rejected : ℕ
  pub states : List ConnState
  pub sleeps : List ℕ

-- `start` with a register token, up to the loop.
unfoldable pub start : List ℕ → Worker
start token = record {
  backoff = k_min_backoff;
  first_attempt = true;
  retry_count = 0;
  gave_up = false;
  running = true;
  ended = false;
  register_token = token;
  tokens_rejected = 0;
  states = connecting ∷ [];
  sleeps = [];
}

abbrev pub set_state : Worker → ConnState → Worker
set_state w s = record w { states = s ∷ w.states }

-- Behind the loop.
unfoldable pub finish : Worker → Worker
finish w = record (set_state w (if w.gave_up then error else stopped)) { ended = true }

-- A register token that the server refuses for reason 1 is dropped.
unfoldable pub drop_token : Worker → Option ℕ → Worker
drop_token w none = w
drop_token w (some reason) = elim w.register_token [
  | [] ↦ w
  | c ∷ cs ↦
      if reason == 1
      then record w { register_token = []; tokens_rejected = w.tokens_rejected + 1 }
      else w
]

-- After an attempt that failed while the worker runs.
unfoldable pub back_off : Worker → Worker
unfolding finish
back_off w =
    if leb k_max_connect_retries w.retry_count
    then finish (record (set_state w error) { gave_up = true })
    else record (set_state w reconnecting) {
      sleeps = w.backoff ∷ w.sleeps;
      backoff = min (w.backoff * 2) k_max_backoff;
    }

abbrev pub count_failure : Worker → Worker
count_failure w = record w { retry_count = w.retry_count + 1 }

abbrev pub stand : Worker → Worker
stand w = set_state (record w { retry_count = 0; backoff = k_min_backoff }) connected

-- One attempt, from the announcement of the state on.
unfoldable pub attempt : Worker → Outcome → Worker
unfolding finish drop_token back_off
attempt w invalid = finish (count_failure (record (set_state w error) { running = false }))
attempt w (failed reason) = back_off (count_failure (drop_token w reason))
attempt w (halted false) = finish (count_failure (record w { running = false }))
attempt w (halted true) = finish (stand (record w { running = false }))
attempt w halted_before = finish (record w { running = false })
attempt w lost = set_state (stand w) reconnecting
attempt w stopped_later = finish (record (stand w) { running = false })
attempt w threw = record (set_state (stand w) error) { running = false; ended = true }

-- The test of the outer loop, and the state that it reports.
abbrev pub announce : Worker → Outcome → Worker
announce w halted_before = w
announce w o = record (set_state w (if w.first_attempt then connecting else reconnecting)) {
  first_attempt = false;
}

-- One round of the outer loop.
unfoldable pub round : Worker → Outcome → Worker
unfolding attempt
round w o = attempt (announce w o) o

unfoldable pub run : Worker → List Outcome → Worker
run w [] = w
run w (o ∷ os) = elim w.ended [ true ↦ w | false ↦ run (round w o) os ]
