-- ===== src/Prelude/Dict.antt =====
-- Python's `dict` with text keys, in the order of first insertion: a write to a key that is present
-- changes its entry in place, and a write to a new key appends one.
use Prim.Native.String.{String}
use mathlib.Core.Path.{◌≡◌, refl}
use mathlib.Core.Bool.{Bool, true, false, ◌||◌}
use mathlib.Core.List.{List, [], ◌∷◌}
use mathlib.Core.Option.{Option, none, some}
use native.Mathlib.Omega.{arith}
use text.Mathlib.Text.{◌==◌}
use text.Mathlib.TextEquality.{eq_iff}
use mathlib.Core.Logic.{inl, inr}
use know_gate.Prelude.Tests.{if◌then◌else◌, Bool-cases}
use know_gate.Prelude.Lists.{All}

abbrev pub Dict {ℓ} : Type ℓ → Type ℓ
Dict V = List (String × V)

-- `k in ks`
unfoldable pub has : String → List String → Bool
has k [] = false
has k (j ∷ ks) = j == k || has k ks

-- No text occurs twice.
abbrev pub Distinct : List String → Type 0
Distinct [] = Unit
Distinct (k ∷ ks) = (has k ks ≡ false) × Distinct ks

-- The keys after a write to `k`.
unfoldable pub add_key : String → List String → List String
add_key k [] = k ∷ []
add_key k (j ∷ ks) = if j == k then j ∷ ks else j ∷ add_key k ks

module _ {ℓ} {V : Type ℓ} where
  abbrev pub keys : Dict V → List String
  keys [] = []
  keys ((k, v) ∷ d) = k ∷ keys d

  unfoldable pub get : String → Dict V → Option V
  get k [] = none
  get k ((j, v) ∷ d) = if j == k then some v else get k d

  unfoldable pub put : String → V → Dict V → Dict V
  put k v [] = (k, v) ∷ []
  put k v ((j, w) ∷ d) = if j == k then (j, v) ∷ d else (j, w) ∷ put k v d

  pub get-put :
      (k j : String) (v : V) (d : Dict V) → get j (put k v d) ≡ (if k == j then some v else get j d)
  unfolding get put
  get-put k j v [] = refl
  get-put k j v ((i, w) ∷ d) = ground (arith, eq_iff k j, eq_iff i k, eq_iff i j, get-put k j v d)

  pub keys-put : (k : String) (v : V) (d : Dict V) → keys (put k v d) ≡ add_key k (keys d)
  unfolding put add_key
  keys-put k v [] = refl
  keys-put k v ((j, w) ∷ d) = ground (arith, keys-put k v d)

  pub get_of_has : (k : String) (d : Dict V) → has k (keys d) ≡ true → (v : V) × (get k d ≡ some v)
  unfolding get has
  get_of_has k [] h = cc
  get_of_has k ((j, v) ∷ d) h = elim (Bool-cases (j == k)) [
    | inl here ↦ (v, rw here)
    | inr there ↦ rw there (get_of_has k d (rw there at h))
  ]

  pub get-eq-none_of_not-has : (k : String) (d : Dict V) → has k (keys d) ≡ false → get k d ≡ none
  unfolding get has
  get-eq-none_of_not-has k [] h = refl
  get-eq-none_of_not-has k ((j, v) ∷ d) h = ground (arith, get-eq-none_of_not-has k d)

pub has-add_key : (k j : String) (ks : List String) → has j (add_key k ks) ≡ (k == j || has j ks)
unfolding has add_key
has-add_key k j [] = refl
has-add_key k j (i ∷ ks) = ground (arith, eq_iff k j, eq_iff i k, eq_iff i j, has-add_key k j ks)

pub add_key-Distinct : (k : String) (ks : List String) → Distinct ks → Distinct (add_key k ks)
unfolding add_key has
add_key-Distinct k [] h = (refl, tt)
add_key-Distinct k (i ∷ ks) h =
    ground (arith, eq_iff k i, eq_iff i k, has-add_key k i ks, add_key-Distinct k ks)

has-cons : (k j : String) (ks : List String) → has k ks ≡ true → has k (j ∷ ks) ≡ true
unfolding has
has-cons k j ks h = ground arith

module _ (P : String → Type 0) where
  -- A predicate that holds of what is in a list of texts holds all along the list.
  pub All-has : (ks : List String) → ((k : String) → has k ks ≡ true → P k) → All P ks
  unfolding has
  All-has [] h = tt
  All-has (j ∷ ks) h =
      (h j (ground (arith, eq_iff j j)), All-has ks (λ k m. h k (has-cons k j ks m)))

module _ {ℓ} {V : Type ℓ} where
  -- The entries of a dict are what reads find.
  entries-get_in :
      (d whole : Dict V)
      → ((k : String) (v : V) → get k d ≡ some v → get k whole ≡ some v)
      → Distinct (keys d)
      → All (λ e. get e.0 whole ≡ some e.1) d
  unfolding get
  entries-get_in [] whole h u = tt
  entries-get_in ((k, v) ∷ d) whole h u = (
    h k v (ground (arith, eq_iff k k)),
    entries-get_in d whole (λ j w e. h j w (ground (arith, eq_iff k j, get-eq-none_of_not-has k d)))
        u.1,
  )

  pub entries-get : (d : Dict V) → Distinct (keys d) → All (λ e. get e.0 d ≡ some e.1) d
  entries-get d u = entries-get_in d d (λ k v e. e) u
