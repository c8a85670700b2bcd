-- ===== src/Llm/CircuitBreaker/Counters.antt =====
-- The statistics of a `CircuitBreaker` against its history of calls.
use know_gate.Prelude.{ℕ, ◌+◌, ◌≡◌, ◌≢◌, ◌&&◌, List, [], ◌∷◌, arith, str_eq, eq_iff, if◌then◌else◌}
use know_gate.Llm.CircuitBreaker.{
  CircuitBreaker, is_closed, model_to_call, record_success, record_failure, Event, ask, success,
  failure, step, run,
}

abbrev pub successes : List Event → ℕ
successes [] = 0
successes (success m ∷ es) = successes es + 1
successes (ask now ∷ es) = successes es
successes (failure now m ∷ es) = successes es

abbrev pub failed : List Event → ℕ
failed [] = 0
failed (failure now m ∷ es) = failed es + 1
failed (ask now ∷ es) = failed es
failed (success m ∷ es) = failed es

-- What one call adds to the uses of the fallback: a request answered with the fallback, or a
-- success of the fallback after which the circuit is closed.
abbrev pub fallback_use : CircuitBreaker → Event → ℕ
fallback_use b (ask now) = if str_eq (model_to_call now b).1 b.fallback then 1 else 0
fallback_use b (success m) =
    if str_eq m b.fallback && is_closed (record_success m b).state then 1 else 0
fallback_use b (failure now m) = 0

abbrev pub fallback_uses : CircuitBreaker → List Event → ℕ
fallback_uses b [] = 0
fallback_uses b (e ∷ es) = fallback_use b e + fallback_uses (step b e) es

-- One call moves each counter as the history says, and keeps the two models.
pub record Moves (b : CircuitBreaker) (e : Event) (c : CircuitBreaker) : Type 0 where
  pub success_count : c.total_successes ≡ b.total_successes + successes (e ∷ [])
  pub failure_count : c.total_failures ≡ b.total_failures + failed (e ∷ [])
  pub fallback_count : c.fallback_used_count ≡ b.fallback_used_count + fallback_use b e
  pub primary_same : c.primary ≡ b.primary
  pub fallback_same : c.fallback ≡ b.fallback

step-Moves : (b : CircuitBreaker) (e : Event) → b.primary ≢ b.fallback → Moves b e (step b e)
unfolding step model_to_call record_success record_failure
step-Moves b (ask now) ne =
    ground (arith, eq_iff b.primary b.fallback, eq_iff b.fallback b.fallback)
step-Moves b (success m) ne = ground arith
step-Moves b (failure now m) ne = ground arith

-- After any calls of a breaker whose two models differ: the totals have grown by the successes and
-- by the failures reported, and `fallback_used_count` by the requests that the fallback was chosen
-- for and the successes of the fallback after which the circuit was closed.
run-counts :
    (b : CircuitBreaker) (es : List Event)
    → b.primary ≢ b.fallback
    → ((run b es).total_successes ≡ b.total_successes + successes es)
      × ((run b es).total_failures ≡ b.total_failures + failed es)
      × ((run b es).fallback_used_count ≡ b.fallback_used_count + fallback_uses b es)
unfolding run
run-counts b [] ne = ground arith
run-counts b (ask now ∷ es) ne =
    let m = step-Moves b (ask now) ne in
    let rest = run-counts (step b (ask now)) es (ground arith) in ground arith
run-counts b (success k ∷ es) ne =
    let m = step-Moves b (success k) ne in
    let rest = run-counts (step b (success k)) es (ground arith) in ground arith
run-counts b (failure now k ∷ es) ne =
    let m = step-Moves b (failure now k) ne in
    let rest = run-counts (step b (failure now k)) es (ground arith) in ground arith
