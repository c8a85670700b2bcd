-- ===== src/Llm/CircuitBreaker/Timing.antt =====
-- When a `CircuitBreaker` opens, how long it stays open, and what it answers meanwhile.
use know_gate.Prelude.{
  ℕ, ◌+◌, ◌≤◌, ◌<◌, ◌≡◌, ◌≢◌, ◌↔◌, refl, String, List, [], ◌∷◌, arith, ltb, if◌then◌else◌, length,
  All, ap, Bool-cases, inl, inr,
}
use know_gate.Llm.CircuitBreaker.{
  CircuitBreaker, closed, half_open, open_, is_closed, model_to_call, record_failure, Event, ask,
  success, failure, step, run,
}
use know_gate.Llm.CircuitBreaker.Invariant.{IsValid, step-IsValid}

-- The models that the `ask`s of a history are answered with, in order.
unfoldable pub answers : CircuitBreaker → List Event → List String
answers b [] = []
answers b (ask now ∷ es) = (model_to_call now b).1 ∷ answers (step b (ask now)) es
answers b (success m ∷ es) = answers (step b (success m)) es
answers b (failure now m ∷ es) = answers (step b (failure now m)) es

-- The event reads the clock before `t`, if it reads it.
abbrev pub Before : ℕ → Event → Type 0
Before t (ask now) = now < t
Before t (success m) = Unit
Before t (failure now m) = now < t

-- What an open breaker keeps.
pub record IsOpen (t : ℕ) (fallback : String) (b : CircuitBreaker) : Type 0 where
  pub state_open : b.state ≡ open_
  pub until : b.opened_at + b.cool_down ≡ t
  pub same : b.fallback ≡ fallback

step-IsOpen :
    (t : ℕ) (f : String) (b : CircuitBreaker) (e : Event)
    → IsOpen t f b
    → Before t e
    → IsOpen t f (step b e)
unfolding step
step-IsOpen t f b (ask now) o h = ground arith
step-IsOpen t f b (success m) o h = ground arith
step-IsOpen t f b (failure now m) o h = ground arith

ask-IsOpen :
    (t : ℕ) (f : String) (b : CircuitBreaker) (now : ℕ)
    → IsOpen t f b
    → now < t
    → (model_to_call now b).1 ≡ f
unfolding model_to_call
ask-IsOpen t f b now o h = ground arith

answers-IsOpen :
    (t : ℕ) (f : String) (b : CircuitBreaker) (es : List Event)
    → IsOpen t f b
    → All (Before t) es
    → All (λ m. m ≡ f) (answers b es) × IsOpen t f (run b es)
unfolding answers run
answers-IsOpen t f b [] o h = (tt, o)
answers-IsOpen t f b (ask now ∷ es) o h =
    let rest = answers-IsOpen t f (step b (ask now)) es (step-IsOpen t f b (ask now) o h.0) h.1 in
    ((ask-IsOpen t f b now o h.0, rest.0), rest.1)
answers-IsOpen t f b (success m ∷ es) o h =
    answers-IsOpen t f (step b (success m)) es (step-IsOpen t f b (success m) o h.0) h.1
answers-IsOpen t f b (failure now m ∷ es) o h =
    answers-IsOpen t f (step b (failure now m)) es (step-IsOpen t f b (failure now m) o h.0) h.1

-- An open breaker stays open, with the same end of its cool-down, through any calls made before
-- that end, successes and failures included, and answers each request with the fallback.
pub cool_down_holds :
    (b : CircuitBreaker) (es : List Event)
    → b.state ≡ open_
    → All (Before (b.opened_at + b.cool_down)) es
    → All (λ m. m ≡ b.fallback) (answers b es)
      × IsOpen (b.opened_at + b.cool_down) b.fallback (run b es)
cool_down_holds b es o h =
    answers-IsOpen _ _ b es (record { state_open = o; until = refl; same = refl }) h

-- An open breaker answers a request with the primary exactly from the end of its cool-down on; that
-- request moves it to HALF_OPEN with a probe in flight, and an earlier one leaves it open.
model_to_call-open :
    (b : CircuitBreaker) (now : ℕ)
    → b.state ≡ open_
    → b.primary ≢ b.fallback
    → ((model_to_call now b).1 ≡ b.primary ↔ b.opened_at + b.cool_down ≤ now)
      × ((model_to_call now b).0.state ≡ half_open ↔ b.opened_at + b.cool_down ≤ now)
unfolding model_to_call
model_to_call-open b now o ne = ground arith

-- A failed call for each time and model, in order.
abbrev pub failures : List (ℕ × String) → List Event
failures [] = []
failures ((now, m) ∷ es) = failure now m ∷ failures es

record_failure-open :
    (now : ℕ) (m : String) (b : CircuitBreaker)
    → b.state ≡ open_
    → (record_failure now m b).state ≡ open_
unfolding record_failure
record_failure-open now m b o = ground arith

failures-open :
    (b : CircuitBreaker) (fs : List (ℕ × String))
    → b.state ≡ open_
    → (run b (failures fs)).state ≡ open_
unfolding run step
failures-open b [] o = o
failures-open b ((now, m) ∷ fs) o =
    failures-open (record_failure now m b) fs (record_failure-open now m b o)

-- One failure of a closed breaker.
abbrev pub Counted : CircuitBreaker → CircuitBreaker → Type 0
Counted b c =
    (c.consecutive_failures ≡ b.consecutive_failures + 1)
    × (c.failure_threshold ≡ b.failure_threshold)
    × (c.state ≡ (if ltb (b.consecutive_failures + 1) b.failure_threshold then closed else open_))

record_failure-closed :
    (now : ℕ) (m : String) (b : CircuitBreaker)
    → b.state ≡ closed
    → Counted b (record_failure now m b)
unfolding record_failure
record_failure-closed now m b o = ground arith

-- From a valid closed breaker, any failures in a row leave it CLOSED exactly while they and the
-- failures counted before are together fewer than the threshold; from the one that reaches the
-- threshold on it is OPEN.
pub failures-trip :
    (b : CircuitBreaker) (fs : List (ℕ × String))
    → IsValid b
    → b.state ≡ closed
    → (run b (failures fs)).state
      ≡ (if ltb (b.consecutive_failures + length fs) b.failure_threshold then closed else open_)
unfolding run step
failures-trip b [] v o = ground (arith, v.below (ap is_closed o))
failures-trip b ((now, m) ∷ fs) v o =
    let c = record_failure now m b in
    let (count, threshold, state) = record_failure-closed now m b o in
    elim (Bool-cases (ltb (b.consecutive_failures + 1) b.failure_threshold)) [
      | inl below ↦
          ground (arith, failures-trip c fs (step-IsValid b (failure now m) v) (ground arith))
      | inr trips ↦ ground (arith, failures-open c fs (ground arith))
    ]
