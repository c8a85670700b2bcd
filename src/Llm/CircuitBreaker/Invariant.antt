-- ===== src/Llm/CircuitBreaker/Invariant.antt =====
-- The invariant of a `CircuitBreaker` (backend/app/llm/circuit_breaker.py) and what it says of the
-- half-open state.
use know_gate.Prelude.{ℕ, ◌<◌, ◌≡◌, String, true, List, [], ◌∷◌, arith}
use know_gate.Llm.CircuitBreaker.{
  CircuitBreaker, new, is_closed, is_half_open, Event, ask, success, failure, step, run,
}

-- A probe is in flight exactly in HALF_OPEN, and a closed circuit is below its threshold.
pub record IsValid (b : CircuitBreaker) : Type 0 where
  pub probe : b.half_open_in_flight ≡ is_half_open b.state
  pub below : is_closed b.state ≡ true → b.consecutive_failures < b.failure_threshold
  pub positive : 0 < b.failure_threshold

pub step-IsValid : (b : CircuitBreaker) (e : Event) → IsValid b → IsValid (step b e)
unfolding step
step-IsValid b (ask now) v = ground arith
step-IsValid b (success model) v = ground arith
step-IsValid b (failure now model) v = ground arith

pub run-IsValid_from : (b : CircuitBreaker) (es : List Event) → IsValid b → IsValid (run b es)
unfolding run
run-IsValid_from b [] v = v
run-IsValid_from b (e ∷ es) v = run-IsValid_from (step b e) es (step-IsValid b e v)

pub new-IsValid : (p f : String) (t c : ℕ) → 0 < t → IsValid (new p f t c)
new-IsValid p f t c h = ground arith

-- Whatever calls a client makes of a new breaker with a positive threshold, in any order and at
-- any times: a probe is in flight exactly when the state is HALF_OPEN, and in CLOSED the failures
-- counted are fewer than the threshold.
run-IsValid :
    (primary fallback : String) (threshold cool_down : ℕ) (es : List Event)
    → 0 < threshold
    → IsValid (run (new primary fallback threshold cool_down) es)
run-IsValid p f t c es h = run-IsValid_from (new p f t c) es (new-IsValid p f t c h)
