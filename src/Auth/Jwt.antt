-- ===== src/Auth/Jwt.antt =====
-- backend/app/auth/jwt.py. The library PyJWT and the two keys are not part of the repository: they
-- are an interface, of which the code relies on the three laws. Times are whole seconds; the texts
-- that `uuid.uuid4()` gives are arguments.
use know_gate.Prelude.{
  ℕ, ◌+◌, ◌*◌, ◌≤◌, ◌<◌, ◌≡◌, String, true, Option, none, some, List, str_eq, ltb, if◌then◌else◌,
  arith,
}

-- A token that decodes was signed by one of the two functions below, so it has all claims but
-- `roles`, which only an access token has.
pub record Claims : Type 0 where
  pub sub : String
  pub iat : ℕ
  pub nbf : ℕ
  pub exp : ℕ
  pub jti : String
  pub typ : String
  pub roles : Option (List String)

-- The exceptions of `jwt.decode`, as `verify_token` tells them apart, and its own.
pub data TokenError : Type 0 where
  token_expired invalid_signature malformed_token invalid_token : TokenError
  expected_type : String → String → TokenError

pub data Verified : Type 0 where
  verified : Claims → Verified
  token_error : TokenError → Verified

-- `encode` is `jwt.encode` with the private key, and `decode` at a time is `jwt.decode` with the
-- public one. A token is a text that only these two look into.
pub record Pyjwt : Type 1 where
  pub Token : Type 0
  pub encode : Claims → Token
  pub decode : ℕ → Token → Verified
  -- A signed token is accepted from `nbf` until `exp`.
  pub decode-encode :
      (now : ℕ) (c : Claims) → c.nbf ≤ now → now < c.exp → decode now (encode c) ≡ verified c
  pub decode-before_exp :
      (now : ℕ) (token : Token) (c : Claims) → decode now token ≡ verified c → now < c.exp
  -- Time changes nothing about an accepted token but that it expires.
  pub decode-later :
      (now later : ℕ) (token : Token) (c : Claims)
      → decode now token ≡ verified c
      → now ≤ later
      → decode later token ≡ (if ltb later c.exp then verified c else token_error token_expired)

abbrev pub default_access_ttl_seconds : ℕ
default_access_ttl_seconds = 15 * 60

abbrev pub default_refresh_ttl_seconds : ℕ
default_refresh_ttl_seconds = 30 * 24 * 60 * 60

-- The test of the claim `typ`.
unfoldable pub check_type : String → Verified → Verified
check_type expected (token_error e) = token_error e
check_type expected (verified claims) =
    if str_eq claims.typ expected
    then verified claims
    else token_error (expected_type expected claims.typ)

module _ (jwt : Pyjwt) where
  open jwt use {Token}

  unfoldable pub create_access_token : ℕ → String → String → List String → Token × String × ℕ
  create_access_token now jti user_id role_names = (
    jwt.encode (record {
      sub = user_id;
      iat = now;
      nbf = now;
      exp = now + default_access_ttl_seconds;
      jti = jti;
      typ = "access";
      roles = some role_names;
    }),
    jti,
    default_access_ttl_seconds,
  )

  unfoldable pub create_refresh_token : ℕ → String → String → Token × String × ℕ
  create_refresh_token now jti user_id = (
    jwt.encode (record {
      sub = user_id;
      iat = now;
      nbf = now;
      exp = now + default_refresh_ttl_seconds;
      jti = jti;
      typ = "refresh";
      roles = none;
    }),
    jti,
    default_refresh_ttl_seconds,
  )

  unfoldable pub verify_token : ℕ → Token → String → Verified
  unfolding check_type
  verify_token now token expected = check_type expected (jwt.decode now token)

check_type-inv :
    (expected : String) (v : Verified) (c : Claims)
    → check_type expected v ≡ verified c
    → (v ≡ verified c) × (str_eq c.typ expected ≡ true)
unfolding check_type
check_type-inv expected (token_error e) c h = cc
check_type-inv expected (verified d) c h = ground arith

module _ (jwt : Pyjwt) where
  open jwt use {Token}

  pub verify_token-inv :
      (now : ℕ) (token : Token) (expected : String) (c : Claims)
      → verify_token jwt now token expected ≡ verified c
      → (jwt.decode now token ≡ verified c) × (str_eq c.typ expected ≡ true)
  unfolding verify_token
  verify_token-inv now token expected c h = check_type-inv expected (jwt.decode now token) c h

  pub verify_token-later :
      (now later : ℕ) (token : Token) (expected : String) (c : Claims)
      → verify_token jwt now token expected ≡ verified c
      → now ≤ later
      → verify_token jwt later token expected
        ≡ (if ltb later c.exp then verified c else token_error token_expired)
  unfolding verify_token check_type
  verify_token-later now later token expected c h le =
      let (d, t) = verify_token-inv now token expected c h in
      rw (jwt.decode-later now later token c d le) (ground (arith, t))
