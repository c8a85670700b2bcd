-- ===== src/Llm/CircuitBreaker/Probe.antt =====
-- The half-open state of a `CircuitBreaker`: one probe, and what its outcome does.
use know_gate.Prelude.{ℕ, ◌+◌, ◌≤◌, ◌≡◌, String, List, [], ◌∷◌, map, arith, All}
use know_gate.Llm.CircuitBreaker.{
  CircuitBreaker, closed, half_open, open_, model_to_call, record_success, record_failure, ask,
  success, step, run,
}
use know_gate.Llm.CircuitBreaker.Invariant.{IsValid, step-IsValid}
use know_gate.Llm.CircuitBreaker.Timing.{answers}

ask-half_open :
    (b : CircuitBreaker) (now : ℕ)
    → IsValid b
    → b.state ≡ half_open
    → ((model_to_call now b).1 ≡ b.fallback)
      × ((step b (ask now)).state ≡ half_open)
      × ((step b (ask now)).fallback ≡ b.fallback)
unfolding step model_to_call
ask-half_open b now v h = ground arith

-- While a probe is out, every request of a valid breaker goes to the fallback, however many come
-- and whenever, and the state stays HALF_OPEN: there is one probe at a time.
one_probe :
    (b : CircuitBreaker) (times : List ℕ)
    → IsValid b
    → b.state ≡ half_open
    → All (λ m. m ≡ b.fallback) (answers b (map ask times))
      × ((run b (map ask times)).state ≡ half_open)
unfolding answers run step
one_probe b [] v h = (tt, h)
one_probe b (now ∷ times) v h =
    let (answer, state, same) = ask-half_open b now v h in
    let rest = one_probe (step b (ask now)) times (step-IsValid b (ask now) v) state in
    ((answer, rw same at rest.0), rest.1)

-- The outcome of the first call reported while a probe is out decides, whichever model made it: a
-- success closes the circuit with no failures counted, a failure opens it with its cool-down
-- started anew at that time.
probe_outcome :
    (b : CircuitBreaker) (model : String) (now : ℕ)
    → b.state ≡ half_open
    → ((record_success model b).state ≡ closed)
      × ((record_success model b).consecutive_failures ≡ 0)
      × ((record_failure now model b).state ≡ open_)
      × ((record_failure now model b).opened_at ≡ now)
unfolding record_success record_failure
probe_outcome b model now h = ground arith

-- A success of the fallback closes a circuit that is half open: after the request that started the
-- probe, a second request that the fallback served and its success send the next request to the
-- primary, though no call of the primary has succeeded.
fallback_success_closes :
    (b : CircuitBreaker) (t₁ t₂ t₃ : ℕ)
    → b.state ≡ open_
    → b.opened_at + b.cool_down ≤ t₁
    → answers b (ask t₁ ∷ ask t₂ ∷ success b.fallback ∷ ask t₃ ∷ [])
      ≡ b.primary ∷ b.fallback ∷ b.primary ∷ []
unfolding answers step model_to_call record_success
fallback_success_closes b t₁ t₂ t₃ o h = ground arith
