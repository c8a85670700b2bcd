-- ===== src/Auth/Session/Rotation.antt =====
-- How long the tokens of a pair open what they are for.
use know_gate.Prelude.{
  ℕ, ◌+◌, ◌≤◌, ◌≡◌, refl, String, Bool, true, false, some, List, str_eq, ltb, if◌then◌else◌, arith,
  Bool-cases, inl, inr,
}
use know_gate.Db.{Database, User}
use know_gate.Auth.Jwt.{
  Pyjwt, Claims, verified, verify_token, verify_token-later, check_type, create_access_token,
}
use know_gate.Cache.Redis.{Redis}
use know_gate.Cache.Helpers.{Json, is_jti_revoked}
use know_gate.Api.Result.{ok, err, api_error, unauthorized, or_raise, reject, ◌>>=◌}
use know_gate.Auth.Session.{
  Credentials, bearer, or_unauthorized, or_empty, get_current_user, revoke_rest,
  load_user_with_roles, build_jwt_pair, refresh,
}
use know_gate.Auth.Session.Callers.{get_current_user-err}

module _ (redis : Redis) (jwt : Pyjwt) (json : Json Bool) where
  open redis use {Store}
  open jwt use {Token}

  -- A token that is accepted as a refresh token is exchanged for a new pair at every time until it
  -- expires, in every state of the revocations, also when an exchange before has revoked it; from
  -- then on it is refused with the status 401. The user is active.
  refresh-unrevoked :
      (now later : ℕ) (jtis : String × String) (token : Token) (c : Claims) (db : Database)
      (u : User) (roles : List String) (s : Store)
      → verify_token jwt now token "refresh" ≡ verified c
      → now ≤ later
      → load_user_with_roles db c.sub ≡ some (u, roles)
      → refresh redis jwt json later jtis token db s ≡ (
          if ltb later c.exp
          then ok
              (build_jwt_pair jwt later jtis u.id roles, revoke_rest redis json later c.jti c.exp s)
          else err (api_error 401 unauthorized))
  unfolding refresh or_raise or_unauthorized ◌>>=◌
  refresh-unrevoked now later jtis token c db u roles s v le l =
      rw (verify_token-later jwt now later token "refresh" c v le)
        (elim (Bool-cases (ltb later c.exp)) [ inl e ↦ rw (e, l) refl | inr e ↦ rw e refl ])

  opens :
      (lower : String → String) (now : ℕ) (c : Credentials Token) (s : Store) (v : Claims)
      → str_eq (lower c.scheme) "bearer" ≡ true
      → verify_token jwt now c.credentials "access" ≡ verified v
      → is_jti_revoked redis json now v.jti s ≡ false
      → get_current_user redis jwt json lower now (some c) s
        ≡ ok (record {
          user = record { id = v.sub; roles = or_empty v.roles };
          jti = v.jti;
          exp = v.exp;
        })
  unfolding get_current_user or_raise reject or_unauthorized ◌>>=◌ bearer
  opens lower now c s v b e r = rw (b, e, r) (ground arith)

  fresh_access :
      (now : ℕ) (jti user_id : String) (roles : List String)
      → verify_token jwt now (create_access_token jwt now jti user_id roles).0 "access"
        ≡ verified (record {
          sub = user_id;
          iat = now;
          nbf = now;
          exp = now + 900;
          jti = jti;
          typ = "access";
          roles = some roles;
        })
  unfolding verify_token check_type create_access_token
  fresh_access now jti user_id roles =
      rw
        (jwt.decode-encode now
          (record {
            sub = user_id;
            iat = now;
            nbf = now;
            exp = now + 900;
            jti = jti;
            typ = "access";
            roles = some roles;
          })
          (omega arith) (omega arith))
        refl

  -- The access token of a new pair lets its holder in as the user with these roles until 15 minutes
  -- have passed, if it is not revoked, and is refused with the status 401 from then on.
  pub build_jwt_pair-opens :
      (lower : String → String) (now later : ℕ) (jtis : String × String) (user_id scheme : String)
      (roles : List String) (s : Store)
      → str_eq (lower scheme) "bearer" ≡ true
      → now ≤ later
      → is_jti_revoked redis json later jtis.0 s ≡ false
      → get_current_user redis jwt json lower later
          (some (record {
            scheme = scheme;
            credentials = (build_jwt_pair jwt now jtis user_id roles).access_token;
          }))
          s
        ≡ (if ltb later (now + 900)
            then ok (record {
              user = record { id = user_id; roles = roles };
              jti = jtis.0;
              exp = now + 900;
            })
            else err (api_error 401 unauthorized))
  unfolding build_jwt_pair bearer
  build_jwt_pair-opens lower now later jtis user_id scheme roles s b le r =
      let v =
        verify_token-later jwt now later _ "access" _ (fresh_access now jtis.0 user_id roles) le in
      elim (Bool-cases (ltb later (now + 900))) [
        | inl e ↦ rw e (opens lower later _ s _ b (rw e at v) r)
        | inr e ↦ rw e (
            get_current_user-err redis jwt json lower later _ s _ _ (rw b refl) (rw e at v)
              λ c w. cc w)
      ]
