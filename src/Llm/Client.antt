-- ===== src/Llm/Client.antt =====
-- The class `LLMClient` of backend/app/llm/client.py over the answers of the LiteLLM proxy, with its
-- optional circuit breaker. A call takes the two readings of the clock that the breaker may use and
-- what the proxy answers to a model. Costs are exact, in hundred-millionths of a dollar: the rounding
-- to six digits is left out, as are the latency and the metrics.
pub mod Breaker
use know_gate.Prelude.{
  ℕ, ◌+◌, ◌*◌, String, Bool, true, false, ◌&&◌, Option, none, some, List, [], ◌∷◌, str_eq, leb, ltb,
  if◌then◌else◌,
}
use know_gate.Llm.CircuitBreaker.{CircuitBreaker, model_to_call, record_success, record_failure}

-- `_PRICE_PER_1K`, in hundred-thousandths of a dollar: input and output
unfoldable pub price_per_1k : String → Option (ℕ × ℕ)
price_per_1k model =
    if str_eq model "gpt-4o-mini"
    then some (15, 60)
    else if str_eq model "gpt-4o"
    then some (500, 1500)
    else if str_eq model "ollama/llama3"
    then some (0, 0)
    else none

abbrev pub cost_at : Option (ℕ × ℕ) → ℕ → ℕ → ℕ
cost_at none prompt_tokens completion_tokens = 0
cost_at (some (input, output)) prompt_tokens completion_tokens =
    prompt_tokens * input + completion_tokens * output

unfoldable pub estimate_cost_usd : String → ℕ → ℕ → ℕ
unfolding price_per_1k
estimate_cost_usd model prompt_tokens completion_tokens =
    cost_at (price_per_1k model) prompt_tokens completion_tokens

-- The body of an answer: the `content` of the message of each choice, the usage and the model.
pub record LlmBody : Type 0 where
  pub choices : List (Option String)
  pub prompt_tokens : Option ℕ
  pub completion_tokens : Option ℕ
  pub total_tokens : Option ℕ
  pub model : Option String

-- What `client.post` ends in: an exception, or a status with a body, unless `json()` cannot read it.
pub data Posted : Type 0 where
  broken : String → Posted
  replied : ℕ → Option LlmBody → Posted

pub record LlmResult : Type 0 where
  pub text : String
  pub model : String
  pub prompt_tokens : ℕ
  pub completion_tokens : ℕ
  pub total_tokens : ℕ
  pub cost_usd : ℕ

pub record LlmClient : Type 0 where
  pub default_model : String
  pub breaker : Option CircuitBreaker

pub data Completion : Type 0 where
  completed : LlmResult → Completion
  raised : String → Completion

abbrev pub or_number : Option ℕ → ℕ → ℕ
or_number none n = n
or_number (some m) n = m

abbrev pub or_text : Option String → String → String
or_text none t = t
or_text (some s) t = s

-- `(body.get("choices") or [{}])[0].get("message", {}).get("content", "") or ""`
abbrev pub first_text : List (Option String) → String
first_text [] = ""
first_text (c ∷ cs) = or_text c ""

abbrev pub result_of : String → LlmBody → LlmResult
result_of target body =
    let model = or_text body.model target in
    let prompt = or_number body.prompt_tokens 0 in
    let completion = or_number body.completion_tokens 0 in
    record {
      text = first_text body.choices;
      model = model;
      prompt_tokens = prompt;
      completion_tokens = completion;
      total_tokens = or_number body.total_tokens (prompt + completion);
      cost_usd = estimate_cost_usd model prompt completion;
    }

-- The choice of the model: the override, else the breaker, else the default.
unfoldable pub pick_model :
    ℕ → Option String → Option CircuitBreaker → String → String × Option CircuitBreaker
pick_model now (some model) breaker default_model = (model, breaker)
pick_model now none none default_model = (default_model, none)
pick_model now none (some b) default_model = ((model_to_call now b).1, some (model_to_call now b).0)

abbrev pub note_failure : ℕ → String → Option CircuitBreaker → Option CircuitBreaker
note_failure now model none = none
note_failure now model (some b) = some (record_failure now model b)

abbrev pub note_success : String → Option CircuitBreaker → Option CircuitBreaker
note_success model none = none
note_success model (some b) = some (record_success model b)

-- `raise_for_status`
abbrev pub is_success : ℕ → Bool
is_success status = leb 200 status && ltb status 300

-- The body of the answer, after its status.
abbrev pub on_body :
    String → Option LlmBody → Option CircuitBreaker → Completion × Option CircuitBreaker
on_body target none breaker = (raised "JSONDecodeError", breaker)
on_body target (some body) breaker =
    (completed (result_of target body), note_success (result_of target body).model breaker)

unfoldable pub on_posted :
    ℕ → String → Posted → Option CircuitBreaker → Completion × Option CircuitBreaker
unfolding estimate_cost_usd
on_posted now target (broken e) breaker = (raised e, note_failure now target breaker)
on_posted now target (replied status body) breaker =
    if is_success status
    then on_body target body breaker
    else (raised "HTTPStatusError", note_failure now target breaker)

unfoldable pub complete :
    ℕ → ℕ → Option String → (String → Posted) → LlmClient → Completion × LlmClient
unfolding pick_model on_posted
complete asked ended model post client =
    let (target, breaker) = pick_model asked model client.breaker client.default_model in
    let (completion, breaker') = on_posted ended target (post target) breaker in
    (completion, record client { breaker = breaker' })
