-- ===== src/Cache/Redis.antt =====
-- The commands of Redis that backend/app uses, as an interface. Redis itself is not part of the
-- repository: a store is any type with these commands and their documented behaviour. Times are
-- seconds of a clock that does not go back.
use know_gate.Prelude.{
  ℕ, ◌+◌, ◌≤◌, ◌≡◌, String, Option, none, some, str_eq, ltb, if◌then◌else◌, eq_refl, refl, ◌∙◌,
}

pub record Redis : Type 1 where
  pub Store : Type 0
  -- `GET key`
  pub get : ℕ → String → Store → Option String
  -- `SET key value EX ttl`, which is also `SETEX`, for a `ttl` that is not 0
  pub setex : ℕ → String → String → ℕ → Store → Store
  -- `SET key value`
  pub set : String → String → Store → Store
  -- `DEL key`
  pub delete : ℕ → String → Store → Store
  -- A key is there until its time to live has passed.
  pub get-setex :
      (now later : ℕ) (k j value : String) (ttl : ℕ) (s : Store)
      → now ≤ later
      → get later j (setex now k value ttl s)
        ≡ (if str_eq k j then if ltb later (now + ttl) then some value else none else get later j s)
  pub get-set :
      (now : ℕ) (k j value : String) (s : Store)
      → get now j (set k value s) ≡ (if str_eq k j then some value else get now j s)
  pub get-delete :
      (now later : ℕ) (k j : String) (s : Store)
      → now ≤ later
      → get later j (delete now k s) ≡ (if str_eq k j then none else get later j s)

module _ (redis : Redis) where
  open redis use {Store}

  pub get-setex_same :
      (now later : ℕ) (k value : String) (ttl : ℕ) (s : Store)
      → now ≤ later
      → redis.get later k (redis.setex now k value ttl s)
        ≡ (if ltb later (now + ttl) then some value else none)
  get-setex_same now later k value ttl s le =
      redis.get-setex now later k k value ttl s le ∙ rw (eq_refl k) refl

  pub get-delete_same :
      (now later : ℕ) (k : String) (s : Store)
      → now ≤ later
      → redis.get later k (redis.delete now k s) ≡ none
  get-delete_same now later k s le = redis.get-delete now later k k s le ∙ rw (eq_refl k) refl
