-- ===== src/Tests/Llm.antt =====
-- Runs of the circuit breaker of backend/app/llm/circuit_breaker.py.
use know_gate.Prelude.{◌≡◌, ◌≢◌, refl, String, List, [], ◌∷◌, arith, All, true, eq_iff, ℕ}
use know_gate.Llm.CircuitBreaker.{
  CircuitBreaker, half_open, open_, new, ask, success, failure, step, run, model_to_call,
}
use know_gate.Llm.CircuitBreaker.Invariant.{IsValid, new-IsValid}
use know_gate.Llm.CircuitBreaker.Timing.{answers, IsOpen, cool_down_holds, failures, failures-trip}

abbrev fresh : CircuitBreaker
fresh = new "gpt-4o-mini" "ollama/llama3" 2 60

abbrev two_failures : List (ℕ × String)
two_failures = (100, "gpt-4o-mini") ∷ (101, "gpt-4o-mini") ∷ []

abbrev tripped : CircuitBreaker
tripped = record fresh {
  state = open_;
  opened_at = 101;
  consecutive_failures = 2;
  total_failures = 2;
}

abbrev probing : CircuitBreaker
probing = record tripped { state = half_open; half_open_in_flight = true }

trips : run fresh (failures two_failures) ≡ tripped
unfolding run step
trips = refl

probes : run tripped (ask 161 ∷ []) ≡ probing
unfolding run step
probes = refl

script :
    answers fresh (failure 1 "a" ∷ failure 2 "a" ∷ ask 3 ∷ ask 62 ∷ ask 63 ∷ [])
    ≡ "ollama/llama3" ∷ "gpt-4o-mini" ∷ "ollama/llama3" ∷ []
unfolding answers step model_to_call
script = refl

cool_down_holds_example :
    All
      (λ m. m ≡ tripped.fallback)
      (answers tripped (ask 102 ∷ success "ollama/llama3" ∷ ask 160 ∷ []))
    × IsOpen 161 "ollama/llama3" (run tripped (ask 102 ∷ success "ollama/llama3" ∷ ask 160 ∷ []))
cool_down_holds_example =
    cool_down_holds tripped (ask 102 ∷ success "ollama/llama3" ∷ ask 160 ∷ []) refl (omega arith)

models_differ : ◌≢◌ {A = String} "gpt-4o-mini" "ollama/llama3"
models_differ = ground (arith, eq_iff "gpt-4o-mini" "ollama/llama3")

failures-trip_example : (run fresh (failures two_failures)).state ≡ open_
failures-trip_example =
    failures-trip fresh two_failures (new-IsValid "gpt-4o-mini" "ollama/llama3" 2 60 (omega arith))
      refl

probing-IsValid : IsValid probing
probing-IsValid = ground arith
