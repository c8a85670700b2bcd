-- ===== src/Auth/Session/Callers.antt =====
-- What a caller that `get_current_user` lets in has shown, and what a refreshed token has.
use know_gate.Prelude.{
  ℕ, ◌≡◌, refl, String, Bool, true, false, not, ◌&&◌, Option, none, some, str_eq, arith,
}
use know_gate.Db.{Database}
use know_gate.Auth.Jwt.{
  Pyjwt, Claims, Verified, verified, token_error, verify_token, verify_token-inv,
}
use know_gate.Cache.Redis.{Redis}
use know_gate.Cache.Helpers.{Json, is_jti_revoked}
use know_gate.Api.Result.{Result, err, api_error, unauthorized, or_raise, reject, ◌>>=◌}
use know_gate.Api.Result.Ensures.{Ensures, returns, raises, Ensures-reject, Ensures-or_raise}
use know_gate.Auth.Session.{
  Credentials, Caller, TokenPair, bearer, or_unauthorized, get_current_user, revoke_rest, refresh,
}

module _ {B : Type 0} {P : B → Type 0} where
  Ensures-or_unauthorized :
      (v : Verified) (f : Claims → Result B)
      → ((c : Claims) → v ≡ verified c → Ensures P (f c))
      → Ensures P (or_unauthorized v >>= f)
  unfolding ◌>>=◌ or_unauthorized
  Ensures-or_unauthorized (verified c) f k = k c refl
  Ensures-or_unauthorized (token_error e) f k = raises

pub bearer-some :
    {T : Type 0} (lower : String → String) (credentials : Option (Credentials T)) (token : T)
    → bearer lower credentials ≡ some token
    → (c : Credentials T) × (credentials ≡ some c) × (c.credentials ≡ token)
unfolding bearer
bearer-some lower none token h = cc
bearer-some lower (some c) token h = (c, refl, ground arith)

module _ (redis : Redis) (jwt : Pyjwt) (json : Json Bool) where
  open redis use {Store}
  open jwt use {Token}

  pub record Admitted (lower : String → String) (now : ℕ) (credentials : Option (Credentials Token))
      (s : Store) (caller : Caller) : Type 0 where
    pub token : Token
    pub is_shown : bearer lower credentials ≡ some token
    pub claims : Claims
    pub verifies : verify_token jwt now token "access" ≡ verified claims
    pub not_revoked :
        (not (str_eq claims.jti "") && is_jti_revoked redis json now claims.jti s) ≡ false
    pub jti_eq : caller.jti ≡ claims.jti
    pub exp_eq : caller.exp ≡ claims.exp

  pub get_current_user-Admitted :
      (lower : String → String) (now : ℕ) (credentials : Option (Credentials Token)) (s : Store)
      → Ensures
          (Admitted lower now credentials s)
          (get_current_user redis jwt json lower now credentials s)
  unfolding get_current_user
  get_current_user-Admitted lower now credentials s = Ensures-or_raise _ _ _ λ token shown.
      Ensures-or_unauthorized _ _ λ c v. Ensures-reject _ _ _ λ fresh. returns (record {
        token = token;
        is_shown = shown;
        claims = c;
        verifies = v;
        not_revoked = fresh;
        jti_eq = refl;
        exp_eq = refl;
      })

  -- A bearer token is refused if it is not valid as an access token, or if it is revoked.
  pub get_current_user-err :
      (lower : String → String) (now : ℕ) (credentials : Option (Credentials Token)) (s : Store)
      (token : Token) (v : Verified)
      → bearer lower credentials ≡ some token
      → verify_token jwt now token "access" ≡ v
      → ((c : Claims)
          → v ≡ verified c
          → (str_eq c.jti "" ≡ false) × (is_jti_revoked redis json now c.jti s ≡ true))
      → get_current_user redis jwt json lower now credentials s ≡ err (api_error 401 unauthorized)
  unfolding get_current_user or_raise reject or_unauthorized ◌>>=◌
  get_current_user-err lower now credentials s token (verified c) b e r =
      let (named, revoked) = r c refl in rw (b, e, named, revoked) refl
  get_current_user-err lower now credentials s token (token_error t) b e r = rw (b, e) refl

  pub record Refreshed (now : ℕ) (token : Token) (s : Store) (r : TokenPair Token × Store)
      : Type 0 where
    pub claims : Claims
    pub decodes : jwt.decode now token ≡ verified claims
    pub store_eq : r.1 ≡ revoke_rest redis json now claims.jti claims.exp s

  pub refresh-Refreshed :
      (now : ℕ) (jtis : String × String) (token : Token) (db : Database) (s : Store)
      → Ensures (Refreshed now token s) (refresh redis jwt json now jtis token db s)
  unfolding refresh
  refresh-Refreshed now jtis token db s = Ensures-or_unauthorized _ _ λ c v.
      Ensures-or_raise _ _ _ λ loaded l. returns (record {
        claims = c;
        decodes = (verify_token-inv jwt now token "refresh" c v).0;
        store_eq = refl;
      })
