-- ===== src/Sources/TokenBucket.antt =====
-- The class `_TokenBucket` of backend/app/sources/notion.py. The clock counts in ticks, and the tokens
-- are counted by the ticks that refill them: with `token_ticks = period / rate` the tokens
-- `self._tokens` are `tokens / token_ticks`, and a tick refills one tick's worth. `asyncio.sleep`
-- ends on time.
use know_gate.Prelude.{
  ℕ, zero, suc, ◌<◌, ap, ◌+◌, ◌-◌, ◌*◌, ◌≤◌, ◌≡◌, List, [], ◌∷◌, min, ltb, if◌then◌else◌, length,
  arith,
}

pub record TokenBucket : Type 0 where
  pub rate : ℕ
  pub token_ticks : ℕ
  pub last_refill : ℕ
  pub tokens : ℕ

-- `__init__` at a reading of the clock
abbrev pub new_bucket : ℕ → ℕ → ℕ → TokenBucket
new_bucket rate token_ticks now = record {
  rate = rate;
  token_ticks = token_ticks;
  last_refill = now;
  tokens = rate * token_ticks;
}

abbrev pub refilled : ℕ → TokenBucket → ℕ
refilled now b = min (b.rate * b.token_ticks) (b.tokens + (now - b.last_refill))

-- The new bucket, and the time at which the call returns.
unfoldable pub acquire : ℕ → TokenBucket → TokenBucket × ℕ
acquire now b =
    if ltb (refilled now b) b.token_ticks
    then (record b { last_refill = now; tokens = 0 }, now + (b.token_ticks - refilled now b))
    else (record b { last_refill = now; tokens = refilled now b - b.token_ticks }, now)

-- Calls one after the other: each starts a pause after the one before has returned.
unfoldable pub acquire_all : List ℕ → ℕ → TokenBucket → TokenBucket × ℕ
acquire_all [] now b = (b, now)
acquire_all (pause ∷ pauses) now b =
    let (b', later) = acquire (now + pause) b in acquire_all pauses later b'

-- One call pays for its token with the time that the bucket was refilled for and with its sleep.
acquire_bound :
    (now : ℕ) (b : TokenBucket)
    → b.last_refill ≤ now
    → (b.token_ticks + (acquire now b).0.tokens + b.last_refill + now
        ≤ b.tokens + (acquire now b).0.last_refill + (acquire now b).1)
      × ((acquire now b).0.last_refill ≤ (acquire now b).1)
      × ((acquire now b).0.token_ticks ≡ b.token_ticks)
unfolding acquire
acquire_bound now b h = ground arith

acquire_all_bound :
    (pauses : List ℕ) (now : ℕ) (b : TokenBucket)
    → b.last_refill ≤ now
    → (length pauses * b.token_ticks + b.last_refill + now
        ≤ b.tokens + (acquire_all pauses now b).1 + (acquire_all pauses now b).1)
unfolding acquire_all
acquire_all_bound [] now b h = ground arith
acquire_all_bound (pause ∷ pauses) now b h =
    let step = acquire_bound (now + pause) b (omega arith) in
    let rest =
      acquire_all_bound pauses (acquire (now + pause) b).1 (acquire (now + pause) b).0 step.1 in
    let same : length pauses * (acquire (now + pause) b).0.token_ticks
        ≡ length pauses * b.token_ticks =
      ap (λ t. length pauses * t) step.2 in
    let first : suc (length pauses) * b.token_ticks
        ≡ length pauses * b.token_ticks + b.token_ticks =
      grind arith in
    omega arith

-- From a new bucket, the calls that return within some time, whatever the pauses between them, are at
-- most the `rate` of the burst and two for each `token_ticks` of that time.
acquire_all-new_bucket :
    (rate token_ticks now : ℕ) (pauses : List ℕ)
    → length pauses * token_ticks
      ≤ rate * token_ticks
        + 2 * ((acquire_all pauses now (new_bucket rate token_ticks now)).1 - now)
acquire_all-new_bucket rate token_ticks now pauses =
    omega (arith, acquire_all_bound pauses now (new_bucket rate token_ticks now) (omega arith))

-- Two calls for each token's time.
abbrev pub at_once : ℕ → List ℕ
at_once zero = []
at_once (suc n) = 0 ∷ 0 ∷ at_once n

-- A bucket that is empty at some time.
abbrev pub drained : ℕ → ℕ → ℕ → TokenBucket
drained rate token_ticks now = record (new_bucket rate token_ticks now) { tokens = 0 }

acquire_all-cons :
    (pause : ℕ) (pauses : List ℕ) (now : ℕ) (b : TokenBucket) (r : TokenBucket × ℕ)
    → acquire (now + pause) b ≡ r
    → acquire_all (pause ∷ pauses) now b ≡ acquire_all pauses r.1 r.0
unfolding acquire_all
acquire_all-cons pause pauses now b r e = ap (λ (s : TokenBucket × ℕ). acquire_all pauses s.1 s.0) e

acquire_pair :
    (rate token_ticks now : ℕ)
    → 0 < rate
    → 0 < token_ticks
    → (acquire (now + 0) (drained rate token_ticks now)
        ≡ (drained rate token_ticks now, now + token_ticks))
      × (acquire (now + token_ticks + 0) (drained rate token_ticks now)
          ≡ (drained rate token_ticks (now + token_ticks), now + token_ticks))
unfolding acquire
acquire_pair rate token_ticks now r t =
    let cap : token_ticks ≤ rate * token_ticks = grind arith in (ground arith, ground arith)

-- A client that calls again as soon as a call returns gets twice the rate: with an empty bucket, `2 n`
-- calls take the time of `n` tokens, since the time of a sleep is counted again as a refill.
pub acquire_all-at_once :
    (rate token_ticks n now : ℕ)
    → 0 < rate
    → 0 < token_ticks
    → (acquire_all (at_once n) now (drained rate token_ticks now)).1 ≡ now + n * token_ticks
acquire_all-at_once rate token_ticks zero now r t = unfold acquire_all in omega arith
acquire_all-at_once rate token_ticks (suc n) now r t =
    let pair = acquire_pair rate token_ticks now r t in
    let rest = acquire_all-at_once rate token_ticks n (now + token_ticks) r t in
    let time : suc n * token_ticks ≡ token_ticks + n * token_ticks = grind arith in
    let first = acquire_all-cons 0 (0 ∷ at_once n) now (drained rate token_ticks now) _ pair.0 in
    let second =
      acquire_all-cons 0 (at_once n) (now + token_ticks) (drained rate token_ticks now) _ pair.1 in
    rw (first, second) (omega arith)
