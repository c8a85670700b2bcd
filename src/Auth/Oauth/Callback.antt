-- ===== src/Auth/Oauth/Callback.antt =====
-- What the callback of backend/app/auth/oauth.py makes of the state, and of a user's roles.
use know_gate.Prelude.{
  ℕ, ◌+◌, ◌≤◌, ◌<◌, ◌≡◌, refl, sym, ap, ◌∙◌, String, Bool, true, false, ◌||◌, Option, none, some,
  List, [], ◌∷◌, ◌++◌, map, str_eq, eq_iff, eq_refl, ltb, lt→ltb, length, arith, if◌then◌else◌,
  if_cases, Bool-cases, inl, inr, append-nil, append_assoc, subst,
}
use know_gate.Prelude.Dict.{Distinct, has}
use know_gate.Db.{Database, Role}
use know_gate.Db.Table.{find?, select}
use know_gate.Auth.Jwt.{Pyjwt}
use know_gate.Auth.Bootstrap.{granted}
use know_gate.Auth.Oauth.{
  Provider, UserInfo, is_provider, create_user, store_oauth_state, oauth_start, handle_callback,
  oauth_callback,
}
use know_gate.Cache.Redis.{Redis, get-setex_same}
use know_gate.Cache.Keys.{oauth_state_key}
use know_gate.Cache.Helpers.{Json, decode, cache_get_json, pop_oauth_state}
use know_gate.Api.Result.{err, api_error, or_raise, bad_request, ◌>>=◌}
use know_gate.Api.Users.{role_names, user_role_names}
use know_gate.Api.Users.Links.{role_ids}

some-eq : {A : Type 0} {x y : A} → some x ≡ some y → x ≡ y
some-eq e = cc e

undecodable :
    (json : Json String) (text : String) (b : Bool)
    → json.loads text ≡ none
    → decode json (if b then some text else none) ≡ none
unfolding decode
undecodable json text true h = h
undecodable json text false h = refl

module _ (jwt : Pyjwt) (api : Provider) (local_part : String → String) (redis : Redis)
    (json : Json String) where
  open redis use {Store}

  -- If the name of a provider is no JSON text, as `google` and `github` are none, then every callback
  -- of that provider for a state that was just stored by the start of a sign-in, at any later time,
  -- is answered with the status 400: nobody can sign in by OAuth.
  pub oauth_callback-oauth_start :
      (now later : ℕ) (jtis : String × String) (new_id password_hash provider code state : String)
      (db : Database) (s : Store)
      → is_provider provider ≡ true
      → json.loads provider ≡ none
      → now ≤ later
      → (oauth_callback jwt api local_part redis json later jtis new_id password_hash provider code
          state db
          (oauth_start jwt api local_part redis json now provider state s).1).0
        ≡ err (api_error 400 bad_request)
  unfolding oauth_callback handle_callback oauth_start store_oauth_state pop_oauth_state
      cache_get_json or_raise ◌>>=◌
  oauth_callback-oauth_start now later jtis new_id password_hash provider code state db s p h le =
      rw
        (
          p,
          get-setex_same redis now later (oauth_state_key state) provider 300 s le,
          undecodable json provider (ltb later (now + 300)) h,
        )
        refl

role_names-append :
    (uid a b : String) (roles : List Role) (pairs : List (String × String))
    → role_names uid roles (pairs ++ (a, b) ∷ [])
      ≡ role_names uid roles pairs
        ++ (if str_eq a uid then map (λ r. r.name) (select (λ r. str_eq r.id b) roles) else [])
unfolding role_names
role_names-append uid a b roles [] =
    ground (arith, append-nil (map (λ r. r.name) (select (λ r. str_eq r.id b) roles)))
role_names-append uid a b roles ((c, d) ∷ pairs) =
    let more = if str_eq a uid then map (λ r. r.name) (select (λ r. str_eq r.id b) roles) else [] in
    let row = map (λ r. r.name) (select (λ r. str_eq r.id d) roles) in
    elim (Bool-cases (str_eq c uid)) [
      | inl e ↦ rw e (
          ap (λ l. row ++ l) (role_names-append uid a b roles pairs)
          ∙ sym (append_assoc row (role_names uid roles pairs) more))
      | inr e ↦ rw e (role_names-append uid a b roles pairs)
    ]

select-none :
    (b : String) (roles : List Role)
    → has b (role_ids roles) ≡ false
    → select (λ r. str_eq r.id b) roles ≡ []
unfolding select has
select-none b [] h = refl
select-none b (r ∷ roles) h = ground (arith, select-none b roles)

not_same :
    (a b : String) (roles : List Role)
    → has a (role_ids roles) ≡ false
    → has b (role_ids roles) ≡ true
    → str_eq a b ≡ false
not_same a b roles h k = ground (arith, eq_iff a b)

has_found :
    (p : Role → Bool) (roles : List Role) (role : Role)
    → find? p roles ≡ some role
    → has role.id (role_ids roles) ≡ true
unfolding find? has
has_found p [] role e = cc e
has_found p (r ∷ roles) role e = elim (Bool-cases (p r)) [
  | inl t ↦
      subst (λ q. (str_eq r.id q.id || has q.id (role_ids roles)) ≡ true) (some-eq (rw t at e))
        (rw (eq_refl r.id) refl)
  | inr f ↦ ground (arith, has_found p roles role (rw f at e))
]

named_here :
    (name : String) (r : Role) (roles : List Role)
    → has r.id (role_ids roles) ≡ false
    → str_eq r.name name ≡ true
    → map (λ q. q.name) (select (λ q. str_eq q.id r.id) (r ∷ roles)) ≡ name ∷ []
unfolding select
named_here name r roles d t =
    rw (eq_refl r.id, select-none r.id roles d)
      (ap (λ n. n ∷ []) (ground (arith, eq_iff r.name name)))

named_row :
    (name : String) (roles : List Role) (role : Role)
    → Distinct (role_ids roles)
    → find? (λ r. str_eq r.name name) roles ≡ some role
    → map (λ r. r.name) (select (λ r. str_eq r.id role.id) roles) ≡ name ∷ []
unfolding select find?
named_row name [] role d e = cc e
named_row name (r ∷ roles) role d e = elim (Bool-cases (str_eq r.name name)) [
  | inl t ↦
      subst (λ q. map (λ r. r.name) (select (λ r. str_eq r.id q.id) (r ∷ roles)) ≡ name ∷ [])
        (some-eq (rw t at e)) (named_here name r roles d.0 t)
  | inr f ↦
      let e' = rw f at e in
      rw (not_same r.id role.id roles d.0 (has_found _ roles role e'))
        (named_row name roles role d.1 e')
]

-- The names of the roles that a sign-up brings.
abbrev pub names_of : String → Option Role → List String
names_of name none = []
names_of name (some role) = name ∷ []

role_names-granted :
    (uid user_id name : String) (roles : List Role) (o : Option Role)
    (pairs : List (String × String))
    → Distinct (role_ids roles)
    → find? (λ r. str_eq r.name name) roles ≡ o
    → role_names uid roles (granted user_id o pairs)
      ≡ role_names uid roles pairs ++ (if str_eq user_id uid then names_of name o else [])
role_names-granted uid user_id name roles none pairs d e =
    if_cases (λ more. role_names uid roles pairs ≡ role_names uid roles pairs ++ more)
      (str_eq user_id uid) {x = []} {y = []} (λ _. sym (append-nil (role_names uid roles pairs)))
      (λ _. sym (append-nil (role_names uid roles pairs)))
role_names-granted uid user_id name roles (some role) pairs d e =
    role_names-append uid user_id role.id roles pairs
    ∙ ap (λ names. role_names uid roles pairs ++ (if str_eq user_id uid then names else []))
        (named_row name roles role d e)

-- A user that signs up by OAuth when there are users already gets the role `member`, if it is set up,
-- and no other, beside what the tables hold for its new id; nobody else's roles change. The ids of
-- the roles are distinct.
pub create_user-roles :
    (local_part : String → String) (new_id password_hash uid : String) (info : UserInfo)
    (db : Database)
    → Distinct (role_ids db.roles)
    → 0 < length db.users
    → user_role_names (create_user local_part new_id password_hash info db).1 uid
      ≡ user_role_names db uid
        ++ (if str_eq new_id uid
            then names_of "member" (find? (λ r. str_eq r.name "member") db.roles)
            else [])
unfolding create_user
create_user-roles local_part new_id password_hash uid info db d pos =
    rw (lt→ltb 0 (length db.users) pos)
      (role_names-granted uid new_id "member" db.roles _ db.user_roles d refl)
