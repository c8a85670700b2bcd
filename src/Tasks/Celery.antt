-- ===== src/Tasks/Celery.antt =====
-- What the tasks of backend/app/tasks use of Celery, as an interface, and the attempts of a task. An
-- exception is its text.
use know_gate.Prelude.{ℕ, zero, suc, ◌+◌, ◌<◌, ◌≤◌, ◌≡◌, ◌≢◌, String, arith, refl, ◌⊎◌, inl, inr}

-- How `self.retry(exc=e)` ends: it always raises, `Retry`, `MaxRetriesExceededError` or `e` itself.
pub data Retried : Type 0 where
  rescheduled exceeded reraised : Retried

-- By the retries that a task is allowed and those that it has had.
pub record Celery : Type 0 where
  pub retry : ℕ → ℕ → Retried
  pub retry_below : (allowed had : ℕ) → had < allowed → retry allowed had ≡ rescheduled
  -- Past the last retry the exception that was given is raised.
  pub retry_above : (allowed had : ℕ) → allowed ≤ had → retry allowed had ≡ reraised

-- One attempt ends with an answer, for another attempt, or in an exception.
pub data Attempt (A : Type 0) : Type 0 where
  answered : A → Attempt A
  again : Attempt A
  crashed : String → Attempt A

-- The `except` around `self.retry`: what is answered where the retries are exceeded.
unfoldable pub after_retry : {A : Type 0} → Retried → String → A → Attempt A
after_retry rescheduled e fallback = again
after_retry exceeded e fallback = answered fallback
after_retry reraised e fallback = crashed e

module _ {A S : Type 0} (task : ℕ → S → Attempt A × S) where
  -- What follows an attempt, and the number of all of them.
  unfoldable pub then : Attempt A × S → (S → Attempt A × S × ℕ) → Attempt A × S × ℕ
  then (answered a, s) rest = (answered a, s, 1)
  then (crashed e, s) rest = (crashed e, s, 1)
  then (again, s) rest = ((rest s).0, (rest s).1, suc (rest s).2)

  -- The attempts of a task, each with the number of those before it.
  unfoldable pub attempts : ℕ → ℕ → S → Attempt A × S × ℕ
  unfolding then
  attempts zero had s = (again, s, 0)
  attempts (suc fuel) had s = then (task had s) (λ s'. attempts fuel (suc had) s')

  then-again :
      (r : Attempt A × S) (rest : S → Attempt A × S × ℕ)
      → r.0 ≡ again
      → then r rest ≡ ((rest r.1).0, (rest r.1).1, suc (rest r.1).2)
  unfolding then
  then-again (answered a, s) rest e = cc
  then-again (crashed x, s) rest e = cc
  then-again (again, s) rest e = refl

  then-ended :
      (r : Attempt A × S) (rest : S → Attempt A × S × ℕ) → r.0 ≢ again → then r rest ≡ (r.0, r.1, 1)
  unfolding then
  then-ended (answered a, s) rest e = refl
  then-ended (crashed x, s) rest e = refl
  then-ended (again, s) rest e = absurd (e refl)

  -- A task that is rescheduled only below a number of retries ends.
  pub attempts-end :
      (allowed : ℕ) (Allowed : Attempt A → Type 0)
      → ((had : ℕ) (s : S)
          → ((had < allowed) × ((task had s).0 ≡ again))
            ⊎ (((task had s).0 ≢ again) × Allowed (task had s).0))
      → (fuel had : ℕ) (s : S) → allowed < had + fuel
      → had ≤ allowed
      → ((attempts fuel had s).0 ≢ again)
        × Allowed (attempts fuel had s).0
        × (had + (attempts fuel had s).2 ≤ suc allowed)
  unfolding attempts
  attempts-end allowed Allowed step zero had s enough le = absurd (omega (arith, enough, le))
  attempts-end allowed Allowed step (suc fuel) had s enough le =
      let rest : S → Attempt A × S × ℕ = λ s'. attempts fuel (suc had) s' in
      elim (step had s) [
        | inl more ↦
            let later =
              attempts-end allowed Allowed step fuel (suc had) (task had s).1
                (omega (arith, enough)) (omega (arith, more.0)) in
            rw (then-again (task had s) rest more.1) (later.0, later.1, omega (arith, later.2))
        | inr last ↦ rw (then-ended (task had s) rest last.0) (last.0, last.1, omega (arith, le))
      ]
