-- ===== src/Api/Result/Inversion.antt =====
-- What a handler that ends in a response has passed.
use know_gate.Prelude.{◌≡◌, refl, Bool, true, false, not, Option, none, some, arith}
use know_gate.Auth.Permissions.{Permission, CurrentUser, has_permission}
use know_gate.Api.Result.{
  ApiError, Result, ok, err, reject, or_raise, require_permission, ◌>>=◌, api_error, forbidden,
}

module _ {B : Type 0} {b : B} where
  pub or_raise-ok :
      {A : Type 0} (o : Option A) (e : ApiError) (f : A → Result B)
      → (or_raise o e >>= f) ≡ ok b
      → (a : A) × (o ≡ some a) × (f a ≡ ok b)
  unfolding ◌>>=◌ or_raise
  or_raise-ok none e f h = cc
  or_raise-ok (some a) e f h = (a, refl, h)

  pub reject-ok :
      (t : Bool) (e : ApiError) (f : Unit {0} → Result B)
      → (reject t e >>= f) ≡ ok b
      → (t ≡ false) × (f tt ≡ ok b)
  unfolding ◌>>=◌ reject
  reject-ok true e f h = cc
  reject-ok false e f h = (refl, h)

  pub require_permission-ok :
      (user : CurrentUser) (p : Permission) (f : Unit {0} → Result B)
      → (require_permission user p >>= f) ≡ ok b
      → (has_permission user.roles p ≡ true) × (f tt ≡ ok b)
  unfolding require_permission
  require_permission-ok user p f h =
      let (t, k) = reject-ok (not (has_permission user.roles p)) (api_error 403 forbidden) f h in
      (ground arith, k)

  pub bind-ok :
      {A : Type 0} (m : Result A) (f : A → Result B)
      → (m >>= f) ≡ ok b
      → (a : A) × (m ≡ ok a) × (f a ≡ ok b)
  unfolding ◌>>=◌
  bind-ok (ok a) f h = (a, refl, h)
  bind-ok (err e) f h = cc
