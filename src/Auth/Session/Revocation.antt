-- ===== src/Auth/Session/Revocation.antt =====
-- Logging out revokes a token for good.
use know_gate.Prelude.{
  ℕ, ◌+◌, ◌-◌, ◌≤◌, ◌<◌, ◌≡◌, refl, String, Bool, true, false, Option, none, some, List, [], ◌∷◌,
  str_eq, eq_iff, ltb, if◌then◌else◌, arith, sym, ap, ltb→lt, subst, ◌∙◌, All,
}
use know_gate.Db.{Database}
use know_gate.Auth.Jwt.{
  Pyjwt, Claims, TokenError, verified, token_error, verify_token-inv, verify_token-later,
}
use know_gate.Cache.Redis.{Redis}
use know_gate.Cache.Helpers.{Json, RoundTrips, is_jti_revoked, is_revoked-revoke}
use know_gate.Api.Result.{Result, ok, err, api_error, unauthorized}
use know_gate.Api.Result.Ensures.{Ensures, returns, Ensures-at}
use know_gate.Auth.Session.Callers.{
  bearer-some, get_current_user-err, Admitted, Refreshed, get_current_user-Admitted,
  refresh-Refreshed,
}
use know_gate.Auth.Session.{
  Credentials, Caller, TokenPair, get_current_user, revoke_rest, logout, refresh,
}

-- The requests that write revocations, with what each reads.
pub data Event (T : Type 0) : Type 0 where
  logout_with : Option (Credentials T) → Event T
  refresh_with : String × String → T → Database → Event T

verified_if :
    (b : Bool) {c d : Claims} (e : TokenError)
    → (if b then verified d else token_error e) ≡ verified c
    → (b ≡ true) × (c ≡ d)
verified_if true e h = (refl, cc h)
verified_if false e h = cc h

module _ (redis : Redis) (jwt : Pyjwt) (json : Json Bool) (lower : String → String) where
  open redis use {Store}
  open jwt use {Token}

  abbrev after_logout : ℕ → Result Caller → Store → Store
  after_logout now (ok caller) s = logout redis json now caller s
  after_logout now (err e) s = s

  abbrev after_refresh : Result (TokenPair Token × Store) → Store → Store
  after_refresh (ok r) s = r.1
  after_refresh (err e) s = s

  unfoldable play : ℕ → Event Token → Store → Store
  play now (logout_with credentials) s =
      after_logout now (get_current_user redis jwt json lower now credentials s) s
  play now (refresh_with jtis token db) s =
      after_refresh (refresh redis jwt json now jtis token db s) s

  -- The requests one after the other, each with the time since the one before.
  unfoldable pub run : ℕ → List (ℕ × Event Token) → Store → ℕ × Store
  unfolding play
  run now [] s = (now, s)
  run now ((delay, e) ∷ es) s = run (now + delay) es (play (now + delay) e s)

  -- The token is revoked for the rest of its life.
  abbrev Held : String → ℕ → ℕ → Store → Type 0
  Held jti exp now s =
      (later : ℕ) → now ≤ later → later < exp → is_jti_revoked redis json later jti s ≡ true

  -- No other token that a request carries has this `jti` and another `exp`.
  abbrev pub Same : String → ℕ → Token → Type 0
  Same jti exp token =
      (now : ℕ) (c : Claims) → jwt.decode now token ≡ verified c → c.jti ≡ jti → c.exp ≡ exp

  unfoldable pub Unique : String → ℕ → Event Token → Type 0
  Unique jti exp (logout_with none) = Unit
  Unique jti exp (logout_with (some c)) = Same jti exp c.credentials
  Unique jti exp (refresh_with jtis token db) = Same jti exp token

  module _ (trips : RoundTrips json true) where
    revoke_rest-Held :
        (now : ℕ) (jti : String) (exp : ℕ) (s : Store)
        → str_eq jti "" ≡ false
        → Held jti exp now (revoke_rest redis json now jti exp s)
    unfolding revoke_rest
    revoke_rest-Held now jti exp s named later le lt = ground (
      arith,
      eq_iff jti jti,
      is_revoked-revoke redis json now later jti jti (exp - now) s trips le,
    )

    -- Other revocations leave it so, and so does one of the same token.
    Held-revoke_rest :
        (before now : ℕ) (jti other : String) (exp other_exp : ℕ) (s : Store)
        → before ≤ now
        → (other ≡ jti → other_exp ≡ exp)
        → Held jti exp before s
        → Held jti exp now (revoke_rest redis json now other other_exp s)
    unfolding revoke_rest
    Held-revoke_rest before now jti other exp other_exp s w same held later le lt = ground (
      arith,
      eq_iff other jti,
      held later (omega arith) lt,
      is_revoked-revoke redis json now later other jti (other_exp - now) s trips le,
    )

    shown_exp :
        (now : ℕ) (credentials : Option (Credentials Token)) (c : Credentials Token) (jti : String)
        (exp : ℕ) (d : Claims)
        → credentials ≡ some c
        → Unique jti exp (logout_with credentials)
        → jwt.decode now c.credentials ≡ verified d
        → d.jti ≡ jti
        → d.exp ≡ exp
    unfolding Unique
    shown_exp now none c jti exp d e u v j = cc e
    shown_exp now (some b) c jti exp d e u v j = u now d (cc (e, v)) j

    logout-Held :
        (before now : ℕ) (credentials : Option (Credentials Token)) (jti : String) (exp : ℕ)
        (s : Store) (r : Result Caller)
        → before ≤ now
        → Unique jti exp (logout_with credentials)
        → Held jti exp before s
        → Ensures (Admitted redis jwt json lower now credentials s) r
        → Held jti exp now (after_logout now r s)
    unfolding Unique logout
    logout-Held before now credentials jti exp s (ok caller) w u h (returns a) =
        let (c, e, t) = bearer-some lower credentials a.token a.is_shown in
        Held-revoke_rest before now jti caller.jti exp caller.exp s w
          (λ f.
            a.exp_eq
            ∙ shown_exp now credentials c jti exp a.claims e u
                (rw t (verify_token-inv jwt now a.token "access" a.claims a.verifies).0)
                (cc (a.jti_eq, f)))
          h
    logout-Held before now credentials jti exp s (err e) w u h a =
        λ later le lt. h later (omega arith) lt

    refresh-Held :
        (before now : ℕ) (token : Token) (jti : String) (exp : ℕ) (s : Store)
        (r : Result (TokenPair Token × Store))
        → before ≤ now
        → Same jti exp token
        → Held jti exp before s
        → Ensures (Refreshed redis jwt json now token s) r
        → Held jti exp now (after_refresh r s)
    refresh-Held before now token jti exp s (ok r) w u h (returns a) =
        subst (Held jti exp now) (sym a.store_eq) (
          Held-revoke_rest before now jti a.claims.jti exp a.claims.exp s w
            (u now a.claims a.decodes) h)
    refresh-Held before now token jti exp s (err e) w u h a =
        λ later le lt. h later (omega arith) lt

    play-Held :
        (before now : ℕ) (e : Event Token) (jti : String) (exp : ℕ) (s : Store)
        → before ≤ now
        → Unique jti exp e
        → Held jti exp before s
        → Held jti exp now (play now e s)
    unfolding play Unique
    play-Held before now (logout_with credentials) jti exp s w u h =
        logout-Held before now credentials jti exp s _ w u h
          (get_current_user-Admitted redis jwt json lower now credentials s)
    play-Held before now (refresh_with jtis token db) jti exp s w u h =
        refresh-Held before now token jti exp s _ w u h
          (refresh-Refreshed redis jwt json now jtis token db s)

    run-Held :
        (now : ℕ) (es : List (ℕ × Event Token)) (jti : String) (exp : ℕ) (s : Store)
        → All (λ e. Unique jti exp e.1) es
        → Held jti exp now s
        → Held jti exp (run now es s).0 (run now es s).1
    unfolding run
    run-Held now [] jti exp s u h = h
    run-Held now ((delay, e) ∷ es) jti exp s u h =
        run-Held (now + delay) es jti exp (play (now + delay) e s) u.1
          (play-Held now (now + delay) e jti exp s (omega arith) u.0 h)

    run-later : (now : ℕ) (es : List (ℕ × Event Token)) (s : Store) → now ≤ (run now es s).0
    unfolding run
    run-later now [] s = omega arith
    run-later now ((delay, e) ∷ es) s =
        omega (arith, run-later (now + delay) es (play (now + delay) e s))

    -- A token that was let in and logs out is refused at every later time with the status 401, whatever
    -- tokens log out or are refreshed in between, if each other token of these requests that has its
    -- `jti` has its `exp`.
    pub logout-revokes :
        (now : ℕ) (credentials : Option (Credentials Token)) (caller : Caller) (s : Store)
        (es : List (ℕ × Event Token)) (later : ℕ)
        → get_current_user redis jwt json lower now credentials s ≡ ok caller
        → str_eq caller.jti "" ≡ false
        → All (λ e. Unique caller.jti caller.exp e.1) es
        → (run now es (logout redis json now caller s)).0 ≤ later
        → get_current_user redis jwt json lower later credentials
            (run now es (logout redis json now caller s)).1
          ≡ err (api_error 401 unauthorized)
    unfolding logout
    logout-revokes now credentials caller s es later e named u le =
        let a = Ensures-at e (get_current_user-Admitted redis jwt json lower now credentials s) in
        get_current_user-err redis jwt json lower later credentials _ a.token _ a.is_shown
          (verify_token-later jwt now later a.token "access" a.claims a.verifies
            (omega (arith, run-later now es (logout redis json now caller s), le)))
          λ c v.
            let (before, same) = verified_if (ltb later a.claims.exp) _ v in
            (
              cc (same, a.jti_eq, named),
              subst
                  (λ j.
                    is_jti_revoked redis json later j
                      (run now es (logout redis json now caller s)).1
                    ≡ true)
                  (a.jti_eq ∙ sym (ap (λ d. d.jti) same))
                  (run-Held now es caller.jti caller.exp (logout redis json now caller s) u
                    (revoke_rest-Held now caller.jti caller.exp s named) later le
                    (ltb→lt later caller.exp (rw a.exp_eq before))),
            )
