-- ===== src/Llm/CircuitBreaker.antt =====
-- backend/app/llm/circuit_breaker.py: the class `CircuitBreaker`. Each method takes the reading of
-- `time.monotonic()` that it uses as an argument, in ticks of that clock (a natural number), and
-- `cool_down_seconds` is in the same ticks. `self.opened_at` is 0 where the source has 0.0.
-- Logging is left out. A method returns the new object beside its result.
pub mod Invariant
pub mod Timing
pub mod Counters
pub mod Probe
use know_gate.Prelude.{
  ℕ, ◌+◌, String, Bool, true, false, ◌&&◌, List, [], ◌∷◌, leb, str_eq, if◌then◌else◌,
}

pub data CircuitState : Type 0 where
  closed half_open : CircuitState
  open_ : CircuitState

pub record CircuitBreaker : Type 0 where
  pub primary : String
  pub fallback : String
  pub failure_threshold : ℕ
  pub cool_down : ℕ
  pub state : CircuitState
  pub consecutive_failures : ℕ
  pub opened_at : ℕ
  pub half_open_in_flight : Bool
  pub total_failures : ℕ
  pub total_successes : ℕ
  pub fallback_used_count : ℕ

-- The dataclass constructor, with the defaults of the fields that follow the four arguments.
abbrev pub new : String → String → ℕ → ℕ → CircuitBreaker
new primary fallback failure_threshold cool_down = record {
  primary = primary;
  fallback = fallback;
  failure_threshold = failure_threshold;
  cool_down = cool_down;
  state = closed;
  consecutive_failures = 0;
  opened_at = 0;
  half_open_in_flight = false;
  total_failures = 0;
  total_successes = 0;
  fallback_used_count = 0;
}

abbrev pub is_closed : CircuitState → Bool
is_closed closed = true
is_closed _ = false

abbrev pub is_half_open : CircuitState → Bool
is_half_open half_open = true
is_half_open _ = false

abbrev pub use_fallback : CircuitBreaker → CircuitBreaker × String
use_fallback b = (record b { fallback_used_count = b.fallback_used_count + 1 }, b.fallback)

-- The branches of `model_to_call`, by the state.
abbrev pub choose : CircuitState → ℕ → CircuitBreaker → CircuitBreaker × String
choose closed now b = (b, b.primary)
choose open_ now b =
    if leb (b.opened_at + b.cool_down) now
    then (record b { state = half_open; half_open_in_flight = true }, b.primary)
    else use_fallback b
choose half_open now b =
    if b.half_open_in_flight
    then use_fallback b
    else (record b { half_open_in_flight = true }, b.primary)

unfoldable pub model_to_call : ℕ → CircuitBreaker → CircuitBreaker × String
model_to_call now b = choose b.state now b

-- `if self.state == HALF_OPEN: ...` of `record_success`
abbrev pub close_probe : CircuitBreaker → CircuitBreaker
close_probe b =
    if is_half_open b.state then record b { state = closed; half_open_in_flight = false } else b

-- The last `if` of `record_success`.
abbrev pub count_fallback : String → CircuitBreaker → CircuitBreaker
count_fallback model_used b =
    if str_eq model_used b.fallback && is_closed b.state
    then record b { fallback_used_count = b.fallback_used_count + 1 }
    else b

unfoldable pub record_success : String → CircuitBreaker → CircuitBreaker
record_success model_used b =
    count_fallback model_used
      (close_probe (record b { total_successes = b.total_successes + 1; consecutive_failures = 0 }))

abbrev pub trip : ℕ → CircuitBreaker → CircuitBreaker
trip now b =
    if is_half_open b.state
    then record b { state = open_; opened_at = now; half_open_in_flight = false }
    else if is_closed b.state && leb b.failure_threshold b.consecutive_failures
    then record b { state = open_; opened_at = now }
    else b

unfoldable pub record_failure : ℕ → String → CircuitBreaker → CircuitBreaker
record_failure now model_used b = trip now (record b {
  total_failures = b.total_failures + 1;
  consecutive_failures = b.consecutive_failures + 1;
})

pub reset : CircuitBreaker → CircuitBreaker
reset b = record b {
  state = closed;
  consecutive_failures = 0;
  opened_at = 0;
  half_open_in_flight = false;
  total_failures = 0;
  total_successes = 0;
  fallback_used_count = 0;
}

-- One call of a method by a client, with the clock's reading.
pub data Event : Type 0 where
  ask : ℕ → Event
  success : String → Event
  failure : ℕ → String → Event

unfoldable pub step : CircuitBreaker → Event → CircuitBreaker
unfolding model_to_call record_success record_failure
step b (ask now) = (model_to_call now b).0
step b (success model) = record_success model b
step b (failure now model) = record_failure now model b

unfoldable pub run : CircuitBreaker → List Event → CircuitBreaker
run b [] = b
run b (e ∷ es) = run (step b e) es
