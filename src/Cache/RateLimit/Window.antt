-- ===== src/Cache/RateLimit/Window.antt =====
-- The rate limit against its specification: a log of all calls, of which a call counts those of the
-- last window.
use know_gate.Prelude.{
  ℕ, ◌+◌, ◌-◌, ◌*◌, ◌/◌, ◌≤◌, ◌<◌, ◌≡◌, refl, sym, ap, ◌∙◌, String, Bool, true, List, [], ◌∷◌, ◌++◌,
  ltb, leb, if◌then◌else◌, length, length-append, arith, All-map, lt→ltb, ltb→lt, All, All-append,
  Bool-cases, inl, inr,
}
use mathlib.Core.Path.{ap₂}
use native.Mathlib.Nat.{mul-le-mul_right}
use know_gate.Prelude.Dict.{put}
use know_gate.Db.Table.{select, delete_where}
use know_gate.Cache.RateLimit.{SortedSets, drop_old, rate_limit_incr}
use know_gate.Cache.RateLimit.Log.{
  in_window, log_run, in_window-shrinks, in_window-none, in_window-All, in_window-last, encoded,
  length-encoded, delete_where-encoded, early, put-encoded,
}

module _ (redis : SortedSets) (second : ℕ) (member : ℕ → String) (key : String)
    (window_seconds limit : ℕ) where
  open redis use {Store}

  abbrev window : ℕ
  window = window_seconds * second

  abbrev ttl : ℕ
  ttl = window_seconds * 3 / 2 * second

  unfoldable pub limiter_run : ℕ → List ℕ → Store → List (ℕ × Bool)
  limiter_run last [] s = []
  limiter_run last (delay ∷ delays) s =
      let now = last + delay in
      let (count, allowed, s') =
        rate_limit_incr redis second member now key window_seconds limit s in
      (count, allowed) ∷ limiter_run now delays s'

  -- The sorted set holds the calls of the last window, until its time to live has passed.
  record Represents (last : ℕ) (s : Store) (log : List ℕ) : Type 0 where
    past : All (λ t. t ≤ last) log
    held :
        (now : ℕ)
        → last ≤ now
        → redis.entries now key s
          ≡ (if ltb now (last + ttl) then encoded member (in_window window last log) else [])

  window-ttl : window ≤ ttl
  window-ttl = mul-le-mul_right second (omega arith)

  not_expired :
      (last now : ℕ) (log : List ℕ)
      → ltb now window ≡ true
      → (if ltb now (last + ttl) then encoded member (in_window window last log) else [])
        ≡ encoded member (in_window window last log)
  not_expired last now log e =
      rw (lt→ltb now (last + ttl) (omega (arith, ltb→lt now window e, window-ttl))) refl

  dropped :
      (last now : ℕ) (log : List ℕ)
      → last ≤ now
      → window ≤ now
      → All (λ t. t ≤ last) log
      → delete_where
          (λ p. leb p.1 (now - window))
          (if ltb now (last + ttl) then encoded member (in_window window last log) else [])
        ≡ encoded member (in_window window now log)
  unfolding delete_where encoded
  dropped last now log le w past = elim (Bool-cases (ltb now (last + ttl))) [
    | inl e ↦ rw e (
        delete_where-encoded member window now (in_window window last log) w
        ∙ ap (encoded member) (in_window-shrinks window last now log le))
    | inr e ↦ rw e (
        sym (
          ap (encoded member)
            (in_window-none window last now log past (ground (arith, e, window-ttl)))))
  ]

  drop_old-entries :
      (last now : ℕ) (s : Store) (log : List ℕ)
      → last ≤ now
      → Represents last s log
      → redis.entries now key (drop_old redis second member now key window s)
        ≡ encoded member (in_window window now log)
  unfolding drop_old
  drop_old-entries last now s log le r = elim (Bool-cases (ltb now window)) [
    | inl e ↦ rw e (
        r.held now le
        ∙ not_expired last now log e
        ∙ ap (encoded member) (
            early member window last log (ground (arith, e))
            ∙ sym (early member window now log (ground (arith, e)))))
    | inr e ↦ rw e (
        redis.entries-zremrangebyscore now key (now - window) s
        ∙ ap (delete_where (λ p. leb p.1 (now - window))) (r.held now le)
        ∙ dropped last now log le (ground (arith, e)) r.past)
  ]

  call :
      (last now : ℕ) (s : Store) (log : List ℕ)
      → last < now
      → 0 < window
      → ((t u : ℕ) → member t ≡ member u → t ≡ u)
      → Represents last s log
      → ((rate_limit_incr redis second member now key window_seconds limit s).0
          ≡ length (in_window window now log) + 1)
        × Represents now
            (rate_limit_incr redis second member now key window_seconds limit s).2
            (log ++ now ∷ [])
  unfolding rate_limit_incr
  call last now s log lt pos inj r =
      let kept = in_window window now log in
      let s' = drop_old redis second member now key window s in
      let added : redis.entries now key (redis.zadd now key (member now) now s')
          ≡ encoded member (kept ++ now ∷ []) =
        redis.entries-zadd now key (member now) now s'
        ∙ ap (put (member now) now) (drop_old-entries last now s log (omega arith) r)
        ∙ put-encoded member now kept inj (
            in_window-All (λ t. t < now) window now log
              (All-map (λ t h. omega (arith, h, lt)) log r.past)) in
      let lasting : redis.entries now key
            (redis.expire now key ttl (redis.zadd now key (member now) now s'))
          ≡ encoded member (kept ++ now ∷ []) =
        redis.entries-expire now now key ttl (redis.zadd now key (member now) now s') (omega arith)
        ∙ rw (lt→ltb now (now + ttl) (omega (arith, window-ttl, pos))) added in
      (
        redis.zcard-eq now key _
            ∙ ap length lasting
            ∙ length-encoded member (kept ++ now ∷ [])
            ∙ length-append kept (now ∷ []),
        record {
          past =
              All-append (λ t. t ≤ now) log (now ∷ [])
                (All-map (λ t h. omega (arith, h, lt)) log r.past) (omega arith, tt);
          held = λ later le.
              redis.entries-expire now later key ttl _ le
              ∙ rw (added, in_window-last window now log pos) refl;
        },
      )

  nothing :
      (last now : ℕ)
      → [] ≡ (if ltb now (last + ttl) then encoded member (in_window window last []) else [])
  unfolding encoded in_window select
  nothing last now = elim (Bool-cases (ltb now (last + ttl))) [
    | inl e ↦ rw e refl
    | inr e ↦ rw e refl
  ]

  runs :
      (last : ℕ) (delays : List ℕ) (s : Store) (log : List ℕ)
      → 0 < window
      → ((t u : ℕ) → member t ≡ member u → t ≡ u)
      → All (λ delay. 0 < delay) delays
      → Represents last s log
      → limiter_run last delays s ≡ log_run window limit last delays log
  unfolding limiter_run log_run rate_limit_incr
  runs last [] s log pos inj later r = refl
  runs last (delay ∷ delays) s log pos inj later r =
      let now = last + delay in
      let (count, next) = call last now s log (omega (arith, later.0)) pos inj r in
      ap₂ (λ c rest. (c, leb c limit) ∷ rest) count
        (runs now delays _ (log ++ now ∷ []) pos inj later.1 next)

  -- Over any calls at strictly increasing times, on a key that holds nothing before the first, each
  -- call answers with the number of the calls in the window that ends with it, itself counted, and
  -- is allowed if that is at most the limit. The window is not empty, and two times have two texts.
  pub limiter_run-log_run :
      (last : ℕ) (delays : List ℕ) (s : Store)
      → 0 < window
      → ((t u : ℕ) → member t ≡ member u → t ≡ u)
      → All (λ delay. 0 < delay) delays
      → ((now : ℕ) → last ≤ now → redis.entries now key s ≡ [])
      → limiter_run last delays s ≡ log_run window limit last delays []
  limiter_run-log_run last delays s pos inj later empty =
      runs last delays s [] pos inj later
        (record { past = tt; held = λ now le. empty now le ∙ nothing last now })
