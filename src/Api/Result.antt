-- ===== src/Api/Result.antt =====
-- What a handler of backend/app/api/v1 ends in: a response, or an error of
-- backend/app/api/errors.py. An error that the code does not raise itself (a broken constraint, a
-- row that `scalar_one` misses) is `internal` with the status 500.
pub mod Ensures
pub mod Inversion
use know_gate.Prelude.{ℕ, ◌≡◌, refl, String, Bool, true, false, not, Option, none, some, List}
use know_gate.Auth.Permissions.{Permission, CurrentUser, has_permission}

pub data ErrorCode : Type 0 where
  internal bad_request unauthorized forbidden not_found conflict rate_limited invalid_state :
      ErrorCode

pub record ApiError : Type 0 where
  pub status : ℕ
  pub code : ErrorCode

abbrev pub api_error : ℕ → ErrorCode → ApiError
api_error status code = record { status = status; code = code }

-- A response carries what the rest of the handler, or the caller, is given.
pub data Result (A : Type 0) : Type 0 where
  err : ApiError → Result A
  ok : A → Result A

-- An exception ends the handler; else it goes on with what the statement gave.
infixl 5 ◌>>=◌
unfoldable pub ◌>>=◌ : {A B : Type 0} → Result A → (A → Result B) → Result B
err raised >>= next = err raised
ok value >>= next = next value

-- `if test: raise error`
unfoldable pub reject : Bool → ApiError → Result (Unit {0})
reject true e = err e
reject false e = ok tt

infixl 5 ◌>>◌
abbrev pub ◌>>◌ : {B : Type 0} → Result (Unit {0}) → Result B → Result B
statement >> next = statement >>= λ _. next

-- `if row is None: raise error`
unfoldable pub or_raise : {A : Type 0} → Option A → ApiError → Result A
or_raise none e = err e
or_raise (some a) e = ok a

-- `Depends(require_permission(required))`
unfoldable pub require_permission : CurrentUser → Permission → Result (Unit {0})
unfolding reject
require_permission user required =
    reject (not (has_permission user.roles required)) (api_error 403 forbidden)
