-- ===== src/Cache/Helpers.antt =====
-- backend/app/cache/helpers.py over an interface of Redis: values in JSON with a time to live, the
-- revocation of tokens, and the state of a sign-in by OAuth.
use know_gate.Prelude.{
  ℕ, ◌+◌, ◌≤◌, ◌<◌, ◌≡◌, String, Bool, true, false, Option, none, some, str_eq, ltb, ◌==◌,
  if◌then◌else◌, arith,
}
use know_gate.Cache.Redis.{Redis}
use know_gate.Cache.Keys.{session_jti_key, oauth_state_key, session_jti_key_eq}

-- `json.dumps` and `json.loads` at the values of a type; `none` stands for a JSONDecodeError.
pub record Json (V : Type 0) : Type 0 where
  pub dumps : V → String
  pub loads : String → Option V

-- What was written is read back.
abbrev pub RoundTrips : {V : Type 0} → Json V → V → Type 0
RoundTrips json v = json.loads (json.dumps v) ≡ some v

-- A value that does not decode counts as missing.
unfoldable pub decode : {V : Type 0} → Json V → Option String → Option V
decode json none = none
decode json (some raw) = json.loads raw

module _ (redis : Redis) where
  open redis use {Store, get, setex, set, delete, get-setex, get-set, get-delete}

  unfoldable pub cache_get_json : {V : Type 0} → Json V → ℕ → String → Store → Option V
  unfolding decode
  cache_get_json json now key s = decode json (get now key s)

  unfoldable pub cache_set_json : {V : Type 0} → Json V → ℕ → String → V → ℕ → Store → Store
  cache_set_json json now key value ttl s =
      if ttl == 0 then set key (json.dumps value) s else setex now key (json.dumps value) ttl s

  -- A value is read back until its time to live has passed, and other keys are left alone.
  pub get-set_json :
      {V : Type 0} (json : Json V) (now later : ℕ) (k j : String) (v : V) (ttl : ℕ) (s : Store)
      → RoundTrips json v
      → now ≤ later
      → 0 < ttl
      → cache_get_json json later j (cache_set_json json now k v ttl s) ≡ (
          if str_eq k j
          then if ltb later (now + ttl) then some v else none
          else cache_get_json json later j s)
  unfolding cache_get_json cache_set_json decode
  get-set_json json now later k j v ttl s trips le pos =
      ground (arith, redis.get-setex now later k j (json.dumps v) ttl s le, trips)

  unfoldable pub revoke_jti : Json Bool → ℕ → String → ℕ → Store → Store
  unfolding cache_set_json
  revoke_jti json now jti ttl s = cache_set_json json now (session_jti_key jti) true ttl s

  abbrev pub truthy : Option Bool → Bool
  truthy none = false
  truthy (some b) = b

  unfoldable pub is_jti_revoked : Json Bool → ℕ → String → Store → Bool
  unfolding cache_get_json
  is_jti_revoked json now jti s = truthy (cache_get_json json now (session_jti_key jti) s)

  -- The get and the delete are one transaction.
  unfoldable pub pop_oauth_state : Json String → ℕ → String → Store → Option String × Store
  unfolding cache_get_json
  pop_oauth_state json now state s =
      (cache_get_json json now (oauth_state_key state) s, delete now (oauth_state_key state) s)

  -- A token is revoked as long as the revocation lasts, and no other token is affected.
  pub is_revoked-revoke :
      (json : Json Bool) (now later : ℕ) (jti other : String) (ttl : ℕ) (s : Store)
      → RoundTrips json true
      → now ≤ later
      → 0 < ttl
      → is_jti_revoked json later other (revoke_jti json now jti ttl s)
        ≡ (if str_eq jti other then ltb later (now + ttl) else is_jti_revoked json later other s)
  unfolding revoke_jti is_jti_revoked
  is_revoked-revoke json now later jti other ttl s trips le pos = ground (
    arith,
    get-set_json json now later (session_jti_key jti) (session_jti_key other) true ttl s trips le
        pos,
    session_jti_key_eq jti other,
  )
