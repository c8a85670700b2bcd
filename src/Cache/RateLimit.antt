-- ===== src/Cache/RateLimit.antt =====
-- `rate_limit_incr` of backend/app/cache/helpers.py: the sliding window over a sorted set of Redis.
-- The sorted sets are an interface, since Redis is not part of the repository. Times and windows are
-- ticks of the clock, `second` of which make a second.
pub mod Log
pub mod Window
use know_gate.Prelude.{
  ℕ, ◌+◌, ◌-◌, ◌*◌, ◌/◌, ◌≤◌, ◌≡◌, String, Bool, true, false, List, [], ◌∷◌, str_eq, ltb, leb,
  if◌then◌else◌, length,
}
use know_gate.Prelude.Dict.{Dict, put}
use know_gate.Db.Table.{delete_where}
use know_gate.Cache.Keys.{rate_limit_ip_key, rate_limit_user_key}

-- `entries` at a time are the members of a sorted set with their scores, in the order in which they
-- came; the four other fields are commands.
pub record SortedSets : Type 1 where
  pub Store : Type 0
  pub entries : ℕ → String → Store → Dict ℕ
  -- `ZREMRANGEBYSCORE key 0 max`
  pub zremrangebyscore : ℕ → String → ℕ → Store → Store
  -- `ZADD key score member`
  pub zadd : ℕ → String → String → ℕ → Store → Store
  -- `EXPIRE key ttl`, in ticks
  pub expire : ℕ → String → ℕ → Store → Store
  -- `ZCARD key`
  pub zcard : ℕ → String → Store → ℕ
  pub entries-zremrangebyscore :
      (now : ℕ) (k : String) (max : ℕ) (s : Store)
      → entries now k (zremrangebyscore now k max s)
        ≡ delete_where (λ e. leb e.1 max) (entries now k s)
  pub entries-zadd :
      (now : ℕ) (k member : String) (score : ℕ) (s : Store)
      → entries now k (zadd now k member score s) ≡ put member score (entries now k s)
  -- A key is gone from when its time to live has passed.
  pub entries-expire :
      (now later : ℕ) (k : String) (ttl : ℕ) (s : Store)
      → now ≤ later
      → entries later k (expire now k ttl s)
        ≡ (if ltb later (now + ttl) then entries now k s else [])
  pub zcard-eq : (now : ℕ) (k : String) (s : Store) → zcard now k s ≡ length (entries now k s)

module _ (redis : SortedSets) (second : ℕ) (member : ℕ → String) where
  open redis use {Store, zremrangebyscore, zadd, expire, zcard}

  -- A range that ends below 0 holds no score.
  unfoldable pub drop_old : ℕ → String → ℕ → Store → Store
  drop_old now key window s =
      if ltb now window then s else zremrangebyscore now key (now - window) s

  -- `member now` is `f"{now}:{id}"`, and the time to live `int(window_seconds * 1.5)` seconds. The
  -- result is the count, whether it is allowed, and the store.
  unfoldable pub rate_limit_incr : ℕ → String → ℕ → ℕ → Store → ℕ × Bool × Store
  unfolding drop_old
  rate_limit_incr now key window_seconds limit s =
      let s' =
        expire now key (window_seconds * 3 / 2 * second)
          (zadd now key (member now) now (drop_old now key (window_seconds * second) s)) in
      (zcard now key s', leb (zcard now key s') limit, s')

  unfoldable pub check_ip_rate_limit : (ℕ → String) → ℕ → String → ℕ → ℕ → Store → ℕ × Bool × Store
  check_ip_rate_limit show now ip window limit s =
      rate_limit_incr now (rate_limit_ip_key ip (show window)) window limit s

  unfoldable pub check_user_rate_limit :
      (ℕ → String) → ℕ → String → ℕ → ℕ → Store → ℕ × Bool × Store
  check_user_rate_limit show now user_id window limit s =
      rate_limit_incr now (rate_limit_user_key user_id (show window)) window limit s
