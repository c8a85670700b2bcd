-- ===== src/Tests/Auth.antt =====
-- Runs of backend/app/auth, of the sign-in endpoints, and of backend/app/cache/helpers.py.
use know_gate.Prelude.{
  ℕ, ◌+◌, ◌≤◌, ◌≡◌, refl, ap, ◌∙◌, String, false, Option, none, some, List, [], ◌∷◌, str_eq, eq_iff,
  ltb, if◌then◌else◌, arith, All,
}
use know_gate.Db.Table.{find?, select}
use know_gate.Auth.Jwt.{Claims, verified, verify_token, check_type}
use know_gate.Auth.Session.{
  Credentials, Caller, bearer, or_unauthorized, get_current_user, logout, load_user_with_roles,
  build_jwt_pair,
}
use know_gate.Auth.Session.Revocation.{
  Event, logout_with, refresh_with, Unique, Same, run, logout-revokes,
}
use know_gate.Auth.Session.Rotation.{build_jwt_pair-opens}
use know_gate.Cache.Helpers.{is_jti_revoked, cache_get_json, decode}
use know_gate.Api.Result.{ok, err, api_error, unauthorized, or_raise, reject, ◌>>=◌}
use know_gate.Api.Users.{role_names}
use know_gate.Tests.Stores.{memory, no_entries, open_tokens, flag, same_token}
use know_gate.Tests.Api.{tables, ada}

abbrev as_is : String → String
as_is s = s

abbrev access : Claims
access = record {
  sub = "u1";
  iat = 0;
  nbf = 0;
  exp = 900;
  jti = "j1";
  typ = "access";
  roles = some ("admin" ∷ []);
}

abbrev renewal : Claims
renewal = record access { jti = "j2"; typ = "refresh"; exp = 2_592_000; roles = none }

abbrev shown : Option (Credentials Claims)
shown = some (record { scheme = "bearer"; credentials = access })

abbrev ada_here : Caller
ada_here = record { user = record { id = "u1"; roles = "admin" ∷ [] }; jti = "j1"; exp = 900 }

let_in : get_current_user memory open_tokens flag as_is 10 shown no_entries ≡ ok ada_here
unfolding get_current_user bearer or_unauthorized verify_token check_type or_raise reject ◌>>=◌
    is_jti_revoked cache_get_json decode
let_in = refl

other_jti :
    (t : Claims) (jti : String) (exp : ℕ)
    → str_eq t.jti jti ≡ false
    → Same memory open_tokens flag as_is jti exp t
other_jti t jti exp d now c e f =
    cc (d, (eq_iff t.jti jti).1 (ap (λ u. u.jti) (same_token now t c e) ∙ f))

abbrev events : List (ℕ × Event Claims)
events = (5, refresh_with ("j3", "j4") renewal tables) ∷ (7, logout_with none) ∷ []

events-Unique : All (λ e. Unique memory open_tokens flag as_is "j1" 900 e.1) events
unfolding Unique
events-Unique = (other_jti renewal "j1" 900 refl, (tt, tt))

events_end :
    (run memory open_tokens flag as_is 10 events (logout memory flag 10 ada_here no_entries)).0
    ≤ 100
unfolding run
events_end = omega arith

logout-revokes_example :
    get_current_user memory open_tokens flag as_is 100 shown
      (run memory open_tokens flag as_is 10 events (logout memory flag 10 ada_here no_entries)).1
    ≡ err (api_error 401 unauthorized)
logout-revokes_example =
    logout-revokes memory open_tokens flag as_is refl 10 shown ada_here no_entries events 100 let_in
      refl events-Unique events_end

renewal_verified : verify_token open_tokens 100 renewal "refresh" ≡ verified renewal
unfolding verify_token check_type
renewal_verified = refl

ada_loaded : load_user_with_roles tables "u1" ≡ some (ada, "admin" ∷ [])
unfolding load_user_with_roles find? role_names select
ada_loaded = refl

not_revoked : is_jti_revoked memory flag 500 "j7" no_entries ≡ false
unfolding is_jti_revoked cache_get_json decode
not_revoked = refl

build_jwt_pair-opens_example :
    get_current_user memory open_tokens flag as_is 500
      (some (record {
        scheme = "bearer";
        credentials =
            (build_jwt_pair open_tokens 100 ("j7", "j8") "u1" ("admin" ∷ [])).access_token;
      }))
      no_entries
    ≡ (if ltb 500 (100 + 900)
        then ok (record {
          user = record { id = "u1"; roles = "admin" ∷ [] };
          jti = "j7";
          exp = 100 + 900;
        })
        else err (api_error 401 unauthorized))
build_jwt_pair-opens_example =
    build_jwt_pair-opens memory open_tokens flag as_is 100 500 ("j7", "j8") "u1" "bearer"
      ("admin" ∷ []) no_entries refl (omega arith) not_revoked
