-- ===== src/Api/Result/Ensures.antt =====
-- What holds of the response of a handler, if it is one: a rule for each step of a handler.
use know_gate.Prelude.{◌≡◌, refl, subst, Bool, true, false, not, arith, Option, none, some}
use know_gate.Auth.Permissions.{Permission, CurrentUser, has_permission}
use know_gate.Api.Result.{
  ApiError, Result, ok, err, reject, or_raise, require_permission, ◌>>=◌, api_error, forbidden,
}

pub data Ensures {A : Type 0} (P : A → Type 0) : Result A → Type 0 where
  returns : {a : A} → P a → Ensures P (ok a)
  raises : {e : ApiError} → Ensures P (err e)

pub Ensures-ok : {A : Type 0} {P : A → Type 0} {a : A} → Ensures P (ok a) → P a
Ensures-ok (returns h) = h

pub Ensures-at : {A : Type 0} {P : A → Type 0} {r : Result A} {a : A} → r ≡ ok a → Ensures P r → P a
Ensures-at {P} h e = Ensures-ok (subst (Ensures P) h e)

pub weaken :
    {A : Type 0} {P Q : A → Type 0} {r : Result A}
    → Ensures P r
    → ((a : A) → P a → Q a)
    → Ensures Q r
weaken (returns {a} p) h = returns (h a p)
weaken raises h = raises

module _ {B : Type 0} {P : B → Type 0} where
  pub Ensures-bind :
      {A : Type 0} {Q : A → Type 0} (m : Result A) (f : A → Result B)
      → Ensures Q m
      → ((a : A) → Q a → Ensures P (f a))
      → Ensures P (m >>= f)
  unfolding ◌>>=◌
  Ensures-bind (ok a) f h k = k a (Ensures-ok h)
  Ensures-bind (err e) f h k = raises

  pub Ensures-reject :
      (b : Bool) (e : ApiError) (f : Unit {0} → Result B)
      → (b ≡ false → Ensures P (f tt))
      → Ensures P (reject b e >>= f)
  unfolding ◌>>=◌ reject
  Ensures-reject true e f k = raises
  Ensures-reject false e f k = k refl

  pub Ensures-require_permission :
      (user : CurrentUser) (p : Permission) (f : Unit {0} → Result B)
      → (has_permission user.roles p ≡ true → Ensures P (f tt))
      → Ensures P (require_permission user p >>= f)
  unfolding require_permission
  Ensures-require_permission user p f k =
      Ensures-reject (not (has_permission user.roles p)) (api_error 403 forbidden) f
        (λ h. k (ground arith))

  pub Ensures-or_raise :
      {A : Type 0} (o : Option A) (e : ApiError) (f : A → Result B)
      → ((a : A) → o ≡ some a → Ensures P (f a))
      → Ensures P (or_raise o e >>= f)
  unfolding ◌>>=◌ or_raise
  Ensures-or_raise none e f k = raises
  Ensures-or_raise (some a) e f k = k a refl
