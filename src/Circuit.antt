-- ===== src/Circuit.antt =====
-- gateway/src/circuit_breaker.rs: the breaker that each upstream and each node-runner gets.
-- A call of a method is one step; `Instant`s and `Duration`s are numbers of one unit, and the time
-- of a call is an argument. `elapsed()` saturates at 0, as `-` does here. Log lines are left out.
pub mod Graph
pub mod Trip
mod Examples
use shadowmesh.Base.{
  ℕ, zero, suc, ◌+◌, ◌-◌, ◌%◌, ◌^◌, Bool, true, false, Option, none, some, List, [], ◌∷◌, leb,
  nat_beq, Str, if◌then◌else◌,
}

pub data CircuitState : Type 0 where
  closed opened half_open : CircuitState

-- `state as u8`
unfoldable pub to_u8 : CircuitState → ℕ
to_u8 closed = 0
to_u8 opened = 1
to_u8 half_open = 2

-- `From<u8>`
unfoldable pub from_u8 : ℕ → CircuitState
from_u8 val =
    if nat_beq val 0
    then closed
    else if nat_beq val 1
    then opened
    else if nat_beq val 2
    then half_open
    else closed

pub record CircuitBreaker : Type 0 where
  pub state : ℕ
  pub failure_count : ℕ
  pub failure_threshold : ℕ
  pub reset_timeout : ℕ
  pub last_failure_time : Option ℕ
  pub opened_at : Option ℕ
  pub name : Str

unfoldable pub new : Str → ℕ → ℕ → CircuitBreaker
unfolding to_u8
new name failure_threshold reset_timeout = record {
  state = to_u8 closed;
  failure_count = 0;
  failure_threshold = failure_threshold;
  reset_timeout = reset_timeout;
  last_failure_time = none;
  opened_at = none;
  name = name;
}

unfoldable pub current : CircuitBreaker → CircuitState
unfolding from_u8
current b = from_u8 b.state

unfoldable pub transition_to : CircuitState → CircuitBreaker → CircuitBreaker
unfolding to_u8
transition_to s b = record b { state = to_u8 s }

unfoldable pub open_circuit : ℕ → CircuitBreaker → CircuitBreaker
unfolding transition_to
open_circuit now b = let b' = transition_to opened b in record b' { opened_at = some now }

try_half_open : ℕ → Option ℕ → CircuitBreaker → CircuitBreaker × Bool
unfolding transition_to
try_half_open now none b = (b, false)
try_half_open now (some last_failure) b =
    if leb b.reset_timeout (now - last_failure)
    then (transition_to half_open b, true)
    else (b, false)

allow_in : CircuitState → ℕ → CircuitBreaker → CircuitBreaker × Bool
unfolding try_half_open
allow_in closed now b = (b, true)
allow_in opened now b = try_half_open now b.last_failure_time b
allow_in half_open now b = (b, true)

unfoldable pub allow_request : ℕ → CircuitBreaker → CircuitBreaker × Bool
unfolding allow_in current
allow_request now b = allow_in (current b) now b

success_in : CircuitState → CircuitBreaker → CircuitBreaker
unfolding transition_to
success_in half_open b = let b' = transition_to closed b in record b' { failure_count = 0 }
success_in closed b = record b { failure_count = 0 }
success_in opened b = b

unfoldable pub record_success : CircuitBreaker → CircuitBreaker
unfolding success_in current
record_success b = success_in (current b) b

failure_in : CircuitState → ℕ → ℕ → CircuitBreaker → CircuitBreaker
unfolding open_circuit
failure_in closed new_count now b =
    if leb b.failure_threshold new_count then open_circuit now b else b
failure_in half_open new_count now b = open_circuit now b
failure_in opened new_count now b = b

-- `fetch_add` and the `+ 1` on its result both wrap at 2^32.
unfoldable pub record_failure : ℕ → CircuitBreaker → CircuitBreaker
unfolding failure_in current
record_failure now b =
    let new_count = (b.failure_count + 1) % 2 ^ 32 in
    failure_in (current b) new_count now
      (record b { failure_count = new_count; last_failure_time = some now })

unfoldable pub force_close : CircuitBreaker → CircuitBreaker
unfolding transition_to
force_close b = let b' = transition_to closed b in record b' { failure_count = 0 }

abbrev is_opened : CircuitState → Bool
is_opened opened = true
is_opened _ = false

unfoldable pub is_open : CircuitBreaker → Bool
unfolding current
is_open b = is_opened (current b)

unfoldable pub time_in_open_state : ℕ → CircuitBreaker → Option ℕ
unfolding is_open
time_in_open_state now b =
    if is_open b then elim b.opened_at [ none ↦ none | some t ↦ some (now - t) ] else none

-- The methods that change the breaker, as a client calls them.
pub data Call : Type 0 where
  allows succeeds fails forces : Call

unfoldable pub step : CircuitBreaker → ℕ × Call → CircuitBreaker
unfolding allow_request record_success record_failure force_close
step b (now, allows) = (allow_request now b).0
step b (now, succeeds) = record_success b
step b (now, fails) = record_failure now b
step b (now, forces) = force_close b

unfoldable pub run : CircuitBreaker → List (ℕ × Call) → CircuitBreaker
unfolding step
run b [] = b
run b (c ∷ cs) = run (step b c) cs
