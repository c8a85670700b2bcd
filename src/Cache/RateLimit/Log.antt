-- ===== src/Cache/RateLimit/Log.antt =====
-- A log of all calls, and the sorted set of its entries.
use know_gate.Prelude.{
  ℕ, ◌+◌, ◌-◌, ◌≤◌, ◌<◌, ◌≡◌, refl, String, Bool, List, [], ◌∷◌, ◌++◌, map, eq_iff, ltb, leb,
  length, arith, All, if_cases,
}
use know_gate.Prelude.Dict.{Dict, put}
use know_gate.Db.Table.{select, delete_where}

-- The times of the calls that a call at `now` counts beside itself.
unfoldable pub in_window : ℕ → ℕ → List ℕ → List ℕ
in_window window now log = select (λ t. ltb now (t + window)) log

-- The calls come with the time since the one before; each answers with its count.
unfoldable pub log_run : ℕ → ℕ → ℕ → List ℕ → List ℕ → List (ℕ × Bool)
unfolding in_window
log_run window limit last [] log = []
log_run window limit last (delay ∷ delays) log =
    let now = last + delay in
    let count = length (in_window window now log) + 1 in
    (count, leb count limit) ∷ log_run window limit now delays (log ++ now ∷ [])

pub in_window-shrinks :
    (window last now : ℕ) (log : List ℕ)
    → last ≤ now
    → in_window window now (in_window window last log) ≡ in_window window now log
unfolding in_window select
in_window-shrinks window last now [] le = refl
in_window-shrinks window last now (t ∷ log) le =
    ground (arith, in_window-shrinks window last now log le)

pub in_window-none :
    (window last now : ℕ) (log : List ℕ)
    → All (λ t. t ≤ last) log
    → last + window ≤ now
    → in_window window now log ≡ []
unfolding in_window select
in_window-none window last now [] h le = refl
in_window-none window last now (t ∷ log) h le =
    ground (arith, in_window-none window last now log h.1 le)

pub in_window-All :
    (P : ℕ → Type 0) (window now : ℕ) (log : List ℕ) → All P log → All P (in_window window now log)
unfolding in_window select
in_window-All P window now [] h = tt
in_window-All P window now (t ∷ log) h =
    let rest = in_window-All P window now log h.1 in
    if_cases (All P) _ {x = t ∷ in_window window now log} (λ _. (h.0, rest)) (λ _. rest)

pub in_window-last :
    (window now : ℕ) (log : List ℕ)
    → 0 < window
    → in_window window now (log ++ now ∷ []) ≡ in_window window now log ++ now ∷ []
unfolding in_window select
in_window-last window now [] pos = ground arith
in_window-last window now (t ∷ log) pos = ground (arith, in_window-last window now log pos)

module _ (member : ℕ → String) where
  unfoldable pub encoded : List ℕ → Dict ℕ
  encoded log = map (λ t. (member t, t)) log

  pub length-encoded : (log : List ℕ) → length (encoded log) ≡ length log
  unfolding encoded
  length-encoded [] = refl
  length-encoded (t ∷ log) = omega (arith, length-encoded log)

  pub delete_where-encoded :
      (window now : ℕ) (log : List ℕ)
      → window ≤ now
      → delete_where (λ e. leb e.1 (now - window)) (encoded log)
        ≡ encoded (in_window window now log)
  unfolding encoded in_window select delete_where
  delete_where-encoded window now [] le = refl
  delete_where-encoded window now (t ∷ log) le =
      ground (arith, delete_where-encoded window now log le)

  pub early : (window now : ℕ) (log : List ℕ) → now < window → in_window window now log ≡ log
  unfolding in_window select
  early window now [] lt = refl
  early window now (t ∷ log) lt = ground (arith, early window now log lt)

  pub put-encoded :
      (now : ℕ) (log : List ℕ)
      → ((t u : ℕ) → member t ≡ member u → t ≡ u)
      → All (λ t. t < now) log
      → put (member now) now (encoded log) ≡ encoded (log ++ now ∷ [])
  unfolding encoded put
  put-encoded now [] inj h = refl
  put-encoded now (t ∷ log) inj h =
      ground (arith, eq_iff (member t) (member now), inj t now, put-encoded now log inj h.1)
