-- ===== src/Tests/SignIn.antt =====
-- Runs of the ways to sign in, in backend/app/auth and backend/app/api/v1/auth.py, and of the limit of
-- attempts.
use Prim.Native.String.{◌++◌ as concat}
use Prim.Native.String.{count}
use text.Mathlib.TextLemmas.{length-append}
use know_gate.Prelude.{
  ◌&&◌, ℕ, zero, suc, sym, ◌+◌, ◌*◌, ◌≡◌, refl, ap, ◌∙◌, String, Bool, true, false, none, some, [],
  ◌∷◌, ◌++◌, str_eq, ltb, eq_refl, if◌then◌else◌, arith,
}
use know_gate.Prelude.Dict.{Distinct, has}
use know_gate.Db.{Database, User}
use know_gate.Db.Table.{find?, select}
use know_gate.Auth.Session.{build_jwt_pair}
use know_gate.Auth.Session.{build_jwt_pair}
use know_gate.Db.{is_active}
use know_gate.Auth.MagicLink.{Mail, request_magic_link, verify_magic_link, verify-request}
use know_gate.Auth.Password.{PasswordHasher, matches, mismatch, LoginRequest, Addresses}
use know_gate.Auth.Bootstrap.{RegisterRequest, register, register-once}
use know_gate.Auth.Oauth.{Provider, is_provider, oauth_start, oauth_callback, create_user}
use know_gate.Auth.Oauth.Callback.{oauth_callback-oauth_start, create_user-roles, names_of}
use know_gate.Cache.Helpers.{Json}
use know_gate.Cache.RateLimit.Log.{log_run, in_window}
use know_gate.Cache.RateLimit.Window.{limiter_run, limiter_run-log_run}
use know_gate.Api.Result.{ok, err, api_error, bad_request, forbidden, reject, ◌>>=◌}
use know_gate.Api.Users.{user_role_names}
use know_gate.Api.Server.{serve}
use know_gate.Api.Server.Lockout.Users.{HasAdmin}
use know_gate.Tests.Stores.{memory, no_entries, sorted_sets, open_tokens}
use know_gate.Tests.Api.{tables, ada, admin_role, member_role, requests}

abbrev as_is : String → String
as_is s = s

abbrev sent : Mail → Bool
sent m = true

ada_found : find? (λ v. str_eq v.email "ada@x") tables.users ≡ some ada
unfolding find?
ada_found = refl

verify-request_example :
    let stored =
      (request_magic_link memory as_is sent as_is 100 "ada@x" "http://kg" "t" tables
        no_entries).1 in
    ((verify_magic_link memory as_is open_tokens 500 ("j1", "j2") "t" tables stored).0 ≡ (
      if ltb 500 (100 + 900) && is_active ada.status
      then some (record {
        user = ada;
        role_names = user_role_names tables ada.id;
        tokens = build_jwt_pair open_tokens 500 ("j1", "j2") ada.id (user_role_names tables ada.id);
      })
      else none))
    × ((verify_magic_link memory as_is open_tokens 501
          ("j3", "j4")
          "t"
          tables
          (verify_magic_link memory as_is open_tokens 500 ("j1", "j2") "t" tables stored).1).0
        ≡ none)
unfolding find?
verify-request_example =
    verify-request memory as_is open_tokens sent as_is 100 500 501 "ada@x" "http://kg" "t"
      ("j1", "j2") ("j3", "j4") tables tables tables ada ada no_entries ada_found refl refl
      (omega arith) (omega arith)

-- A hash that keeps the password.
abbrev clear : PasswordHasher
clear = record {
  hash = λ salt password. password;
  verify = λ encoded password. if str_eq encoded password then matches else mismatch;
  check_needs_rehash = λ encoded. some false;
  verify-hash = λ salt password. rw (eq_refl password) refl;
}

abbrev first : RegisterRequest
first = record { email = "ada@x"; display_name = "Ada"; password = "secret" }

abbrev no_tables : Database
no_tables = record {
  users = [];
  roles = admin_role ∷ member_role ∷ [];
  user_roles = [];
  access_groups = [];
  user_groups = [];
  documents = [];
  document_groups = [];
}

abbrev with_hash : User
with_hash = record ada { password_hash = some "secret" }

abbrev with_ada : Database
with_ada = record no_tables { users = with_hash ∷ []; user_roles = ("u1", "r1") ∷ [] }

registers :
    register open_tokens clear 5 ("j1", "j2") "u1" "salt" first no_tables
    ≡ ok (with_hash, build_jwt_pair open_tokens 5 ("j1", "j2") "u1" ("admin" ∷ []), with_ada)
unfolding register reject ◌>>=◌ find?
registers = refl

roles-Distinct : Distinct ("r1" ∷ "r2" ∷ [])
unfolding has
roles-Distinct = (refl, (refl, tt))

admin_found : find? (λ r. str_eq r.name "admin") no_tables.roles ≡ some admin_role
unfolding find?
admin_found = refl

register-once_example :
    HasAdmin with_ada
    × (register open_tokens clear 9 ("j3", "j4") "u9" "salt" first (serve requests with_ada)
        ≡ err (api_error 403 forbidden))
register-once_example =
    register-once open_tokens clear 5 9 ("j1", "j2") ("j3", "j4") "u1" "u9" "salt" "salt" first
      first no_tables admin_role
      (with_hash, build_jwt_pair open_tokens 5 ("j1", "j2") "u1" ("admin" ∷ []), with_ada) requests
      roles-Distinct admin_found registers

abbrev attempt : LoginRequest
attempt = record { email = "ada@x"; password = "secret" }

abbrev from_home : Addresses
from_home = record { client_ip = none; host = some "10.0.0.1" }

-- A text of the length of the number.
abbrev strokes : ℕ → String
strokes n = "now"

-- A text of as many strokes as the number.
strokes_of : ℕ → String
strokes_of zero = ""
strokes_of (suc n) = concat "I" (strokes_of n)

count-strokes_of : (n : ℕ) → count (strokes_of n) ≡ n
unfolding strokes_of
count-strokes_of zero = refl
count-strokes_of (suc n) = omega (arith, length-append "I" (strokes_of n), count-strokes_of n)

strokes_of-inj : (t u : ℕ) → strokes_of t ≡ strokes_of u → t ≡ u
strokes_of-inj t u e = sym (count-strokes_of t) ∙ ap count e ∙ count-strokes_of u

limiter_run-log_run_example :
    limiter_run sorted_sets 1 strokes_of "k" 10 2 100 (1 ∷ 3 ∷ 2 ∷ 20 ∷ []) (λ k. ([], none))
    ≡ log_run (10 * 1) 2 100 (1 ∷ 3 ∷ 2 ∷ 20 ∷ []) []
limiter_run-log_run_example =
    limiter_run-log_run sorted_sets 1 strokes_of "k" 10 2 100 (1 ∷ 3 ∷ 2 ∷ 20 ∷ [])
      (λ k. ([], none)) (omega arith) strokes_of-inj
      (omega arith, (omega arith, (omega arith, (omega arith, tt)))) (λ now le. refl)

-- The third call in ten seconds is denied, and the fourth, much later, is allowed.
counted :
    log_run 10 2 100 (1 ∷ 3 ∷ 2 ∷ 20 ∷ []) [] ≡ (1, true) ∷ (2, true) ∷ (3, false) ∷ (1, true) ∷ []
unfolding log_run in_window select
counted = refl

-- JSON, as far as the name of a provider goes.
abbrev quoted : Json String
quoted = record {
  dumps = λ s. concat "\"" (concat s "\"");
  loads = λ s. if str_eq s "\"google\"" then some "google" else none;
}

abbrev google : Provider
google = record {
  exchange_code = λ provider code. ok (some "token");
  fetch_user_info = λ provider token. ok (record { email = "eve@x"; display_name = "Eve" });
  create_authorization_url = λ provider state. state;
  configured = λ provider. true;
}

google_is_provider : is_provider "google" ≡ true
unfolding is_provider
google_is_provider = refl

oauth_callback-oauth_start_example :
    (oauth_callback open_tokens google as_is memory quoted 50
      ("j1", "j2")
      "u9"
      "h"
      "google"
      "c"
      "s"
      tables
      (oauth_start open_tokens google as_is memory quoted 10 "google" "s" no_entries).1).0
    ≡ err (api_error 400 bad_request)
oauth_callback-oauth_start_example =
    oauth_callback-oauth_start open_tokens google as_is memory quoted 10 50 ("j1", "j2") "u9" "h"
      "google" "c" "s" tables no_entries google_is_provider refl (omega arith)

create_user-roles_example :
    user_role_names
      (create_user as_is "u9" "h" (record { email = "eve@x"; display_name = "Eve" }) tables).1
      "u9"
    ≡ user_role_names tables "u9"
      ++ (if str_eq "u9" "u9"
          then names_of "member" (find? (λ r. str_eq r.name "member") tables.roles)
          else [])
create_user-roles_example =
    create_user-roles as_is "u9" "h" "u9" (record { email = "eve@x"; display_name = "Eve" }) tables
      roles-Distinct (omega arith)
