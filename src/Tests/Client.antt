-- ===== src/Tests/Client.antt =====
-- Runs of the client of backend/app/llm/client.py.
use know_gate.Prelude.{◌≡◌, refl, none, some, List, [], ◌∷◌, arith}
use know_gate.Llm.CircuitBreaker.{CircuitBreaker, new, open_, run}
use know_gate.Llm.CircuitBreaker.Invariant.{IsValid, new-IsValid}
use know_gate.Llm.Client.{LlmBody, broken, replied, raised, complete, pick_model, estimate_cost_usd}
use know_gate.Llm.Client.Breaker.{
  Request, complete_all, history, complete_all-run, complete-unreadable,
}

abbrev breaker : CircuitBreaker
breaker = new "gpt-4o-mini" "ollama/llama3" 2 60

abbrev answer : LlmBody
answer = record {
  choices = some "Yes [1]." ∷ [];
  prompt_tokens = some 1000;
  completion_tokens = some 100;
  total_tokens = none;
  model = some "gpt-4o-mini";
}

-- Two failures, and a request that is answered.
abbrev requests : List Request
requests =
    record { asked = 1; ended = 2; model = none; post = λ m. broken "timeout" }
    ∷ record { asked = 3; ended = 4; model = none; post = λ m. replied 503 none }
    ∷ record { asked = 5; ended = 6; model = none; post = λ m. replied 200 (some answer) }
    ∷ []

complete_all-run_example :
    (complete_all requests (record { default_model = "gpt-4o-mini"; breaker = some breaker })
      ≡ record {
        default_model = "gpt-4o-mini";
        breaker = some (run breaker (history requests breaker));
      })
    × IsValid (run breaker (history requests breaker))
complete_all-run_example =
    complete_all-run requests "gpt-4o-mini" breaker
      (new-IsValid "gpt-4o-mini" "ollama/llama3" 2 60 (omega arith))

abbrev tripped : CircuitBreaker
tripped = record breaker { state = open_; opened_at = 100 }

complete-unreadable_example :
    (let after =
        complete 170 171 none
          (λ model. replied 200 none)
          (record { default_model = "gpt-4o-mini"; breaker = some tripped }) in
      (after.0 ≡ raised "JSONDecodeError")
      × ((pick_model 9000 none after.1.breaker "gpt-4o-mini").0 ≡ "ollama/llama3"))
complete-unreadable_example =
    complete-unreadable "gpt-4o-mini" tripped 170 171 9000 refl (omega arith)

cost_of_answer : estimate_cost_usd "gpt-4o-mini" 1000 100 ≡ 21000
unfolding estimate_cost_usd
cost_of_answer = refl
