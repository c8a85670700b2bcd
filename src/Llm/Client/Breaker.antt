-- ===== src/Llm/Client/Breaker.antt =====
-- `LLMClient.complete` as a user of its circuit breaker: a history of requests is a history of calls of
-- the breaker.
use know_gate.Prelude.{
  ℕ, ◌+◌, ◌≤◌, ◌≡◌, refl, sym, ap, ◌∙◌, String, Option, none, some, List, [], ◌∷◌, ◌++◌, Bool-cases,
  inl, inr, arith, if◌then◌else◌,
}
use know_gate.Llm.CircuitBreaker.{
  CircuitBreaker, open_, Event, ask, success, failure, step, run, model_to_call,
}
use know_gate.Llm.CircuitBreaker.Invariant.{IsValid, run-IsValid_from}
use know_gate.Llm.Client.{
  LlmBody, Posted, broken, replied, LlmClient, raised, complete, pick_model, on_posted, result_of,
  is_success,
}

-- One request: when it asks the breaker, when it ends, its override of the model, and the proxy.
pub record Request : Type 0 where
  pub asked : ℕ
  pub ended : ℕ
  pub model : Option String
  pub post : String → Posted

unfoldable pub complete_all : List Request → LlmClient → LlmClient
complete_all [] client = client
complete_all (r ∷ rs) client = complete_all rs (complete r.asked r.ended r.model r.post client).1

-- The calls of the breaker that an answer makes.
abbrev pub events_of_body : String → Option LlmBody → List Event
events_of_body target none = []
events_of_body target (some body) = success (result_of target body).model ∷ []

abbrev pub events_of_answer : ℕ → String → Posted → List Event
events_of_answer ended target (broken e) = failure ended target ∷ []
events_of_answer ended target (replied status body) =
    if is_success status then events_of_body target body else failure ended target ∷ []

-- And those of a request: an override of the model does not ask.
abbrev pub events_of : Request → Option String → CircuitBreaker → List Event
events_of r (some model) b = events_of_answer r.ended model (r.post model)
events_of r none b =
    ask r.asked
    ∷ events_of_answer r.ended (model_to_call r.asked b).1 (r.post (model_to_call r.asked b).1)

on_posted-run :
    (ended : ℕ) (target : String) (answer : Posted) (b : CircuitBreaker)
    → (on_posted ended target answer (some b)).1
      ≡ some (run b (events_of_answer ended target answer))
unfolding on_posted run step
on_posted-run ended target (broken e) b = refl
on_posted-run ended target (replied status none) b = elim (Bool-cases (is_success status)) [
  | inl ok ↦ rw ok refl
  | inr bad ↦ rw bad refl
]
on_posted-run ended target (replied status (some body)) b = elim (Bool-cases (is_success status)) [
  | inl ok ↦ rw ok refl
  | inr bad ↦ rw bad refl
]

complete-run :
    (r : Request) (model : Option String) (default_model : String) (b : CircuitBreaker)
    → (complete r.asked r.ended model r.post
        (record { default_model = default_model; breaker = some b })).1
      ≡ record { default_model = default_model; breaker = some (run b (events_of r model b)) }
unfolding complete pick_model run step
complete-run r (some model) default_model b =
    ap (λ breaker. record { default_model = default_model; breaker = breaker })
      (on_posted-run r.ended model (r.post model) b)
complete-run r none default_model b =
    ap (λ breaker. record { default_model = default_model; breaker = breaker })
      (on_posted-run r.ended (model_to_call r.asked b).1 (r.post (model_to_call r.asked b).1)
        (model_to_call r.asked b).0)

-- The history of the breaker under a list of requests.
unfoldable pub history : List Request → CircuitBreaker → List Event
history [] b = []
history (r ∷ rs) b = events_of r r.model b ++ history rs (run b (events_of r r.model b))

run-append : (b : CircuitBreaker) (es fs : List Event) → run b (es ++ fs) ≡ run (run b es) fs
unfolding run
run-append b [] fs = refl
run-append b (e ∷ es) fs = run-append (step b e) es fs

complete_all-history :
    (rs : List Request) (default_model : String) (b : CircuitBreaker)
    → complete_all rs (record { default_model = default_model; breaker = some b })
      ≡ record { default_model = default_model; breaker = some (run b (history rs b)) }
unfolding complete_all history run
complete_all-history [] default_model b = refl
complete_all-history (r ∷ rs) default_model b =
    ap (λ client. complete_all rs client) (complete-run r r.model default_model b)
    ∙ (complete_all-history rs default_model (run b (events_of r r.model b))
        ∙ ap (λ b'. record { default_model = default_model; breaker = some b' })
            (sym
              (run-append b (events_of r r.model b) (history rs (run b (events_of r r.model b))))))

-- Whatever the requests of a client and the answers of the proxy, its breaker goes through a history
-- of calls: each request asks it, unless it names its model, and then reports the failure of the model
-- that it was given, or the success of the model that answered, or nothing if the answer cannot be
-- read. A valid breaker stays valid: a probe is in flight exactly in HALF_OPEN.
pub complete_all-run :
    (rs : List Request) (default_model : String) (b : CircuitBreaker)
    → IsValid b
    → (complete_all rs (record { default_model = default_model; breaker = some b })
        ≡ record { default_model = default_model; breaker = some (run b (history rs b)) })
      × IsValid (run b (history rs b))
complete_all-run rs default_model b v =
    (complete_all-history rs default_model b, run-IsValid_from b (history rs b) v)

-- A probe whose answer cannot be read is not settled by it: if the request that an open breaker sends to
-- its primary after the cool-down gets a good status and no JSON, it raises, and no success and no
-- failure is recorded: if no other outcome is reported in between, the next request without a model of
-- its own goes to the fallback, however late it comes.
pub complete-unreadable :
    (default_model : String) (b : CircuitBreaker) (asked ended later : ℕ)
    → b.state ≡ open_
    → b.opened_at + b.cool_down ≤ asked
    → (let after =
          complete asked ended none
            (λ model. replied 200 none)
            (record { default_model = default_model; breaker = some b }) in
        (after.0 ≡ raised "JSONDecodeError")
        × ((pick_model later none after.1.breaker default_model).0 ≡ b.fallback))
unfolding complete pick_model on_posted model_to_call
complete-unreadable default_model b asked ended later o h = ground arith
