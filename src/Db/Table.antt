-- ===== src/Db/Table.antt =====
-- The SQL statements of the handlers in backend/app/api/v1, over the list of a table's rows.
use know_gate.Prelude.{
  ℕ, ◌+◌, ◌≤◌, ◌≡◌, refl, String, Bool, true, false, not, ◌&&◌, ◌||◌, Option, none, some, List, [],
  ◌∷◌, ◌++◌, arith, str_eq, eq_iff, if◌then◌else◌, Bool-cases, inl, inr,
}

module _ {ℓ} {A : Type ℓ} where
  -- `scalar_one_or_none()` of a select on a unique column: the row, if there is one.
  unfoldable pub find? : (A → Bool) → List A → Option A
  find? p [] = none
  find? p (x ∷ xs) = if p x then some x else find? p xs

  -- The rows of a select.
  unfoldable pub select : (A → Bool) → List A → List A
  select p [] = []
  select p (x ∷ xs) = let rest = select p xs in if p x then x ∷ rest else rest

  -- An assignment to the columns of the rows that fit.
  unfoldable pub update_where : (A → Bool) → (A → A) → List A → List A
  update_where p f [] = []
  update_where p f (x ∷ xs) = (if p x then f x else x) ∷ update_where p f xs

  unfoldable pub delete_where : (A → Bool) → List A → List A
  delete_where p [] = []
  delete_where p (x ∷ xs) = let rest = delete_where p xs in if p x then rest else x ∷ rest

  -- `sum` of a column, and `count(*)` of a join as the sum of the counts of its inner rows.
  unfoldable pub sum_by : (A → ℕ) → List A → ℕ
  sum_by w [] = 0
  sum_by w (x ∷ xs) = w x + sum_by w xs

  unfoldable pub count_where : (A → Bool) → List A → ℕ
  count_where p [] = 0
  count_where p (x ∷ xs) = (if p x then 1 else 0) + count_where p xs

  pub sum_by-append : (w : A → ℕ) (xs ys : List A) → sum_by w (xs ++ ys) ≡ sum_by w xs + sum_by w ys
  unfolding sum_by
  sum_by-append w [] ys = omega arith
  sum_by-append w (x ∷ xs) ys = omega (arith, sum_by-append w xs ys)

  pub sum_by-le : (v w : A → ℕ) (xs : List A) → ((x : A) → v x ≤ w x) → sum_by v xs ≤ sum_by w xs
  unfolding sum_by
  sum_by-le v w [] h = omega arith
  sum_by-le v w (x ∷ xs) h = omega (arith, h x, sum_by-le v w xs h)

  -- The rows that an update does not touch keep their part of a sum.
  pub sum_by-update_where_others :
      (p : A → Bool) (f : A → A) (w : A → ℕ) (xs : List A)
      → sum_by (λ x. if p x then 0 else w x) xs ≤ sum_by w (update_where p f xs)
  unfolding sum_by update_where
  sum_by-update_where_others p f w [] = omega arith
  sum_by-update_where_others p f w (x ∷ xs) = ground (arith, sum_by-update_where_others p f w xs)

  pub sum_by-update_where :
      (p : A → Bool) (f : A → A) (w : A → ℕ) (xs : List A)
      → ((x : A) → p x ≡ true → w x ≤ w (f x))
      → sum_by w xs ≤ sum_by w (update_where p f xs)
  unfolding sum_by update_where
  sum_by-update_where p f w [] h = omega arith
  sum_by-update_where p f w (x ∷ xs) h = ground (arith, h x, sum_by-update_where p f w xs h)

  pub sum_by-delete_where :
      (p : A → Bool) (w : A → ℕ) (xs : List A)
      → ((x : A) → p x ≡ true → w x ≡ 0)
      → sum_by w (delete_where p xs) ≡ sum_by w xs
  unfolding sum_by delete_where
  sum_by-delete_where p w [] h = refl
  sum_by-delete_where p w (x ∷ xs) h = ground (arith, h x, sum_by-delete_where p w xs h)

  pub find?-sound : (p : A → Bool) (xs : List A) (y : A) → find? p xs ≡ some y → p y ≡ true
  unfolding find?
  find?-sound p [] y h = cc
  find?-sound p (x ∷ xs) y h = ground (arith, find?-sound p xs y)

  -- A row that is found by what an update keeps is found with the update.
  pub find?-update_where :
      (p : A → Bool) (f : A → A) (xs : List A) (y : A)
      → ((x : A) → p (f x) ≡ p x)
      → find? p xs ≡ some y
      → find? p (update_where p f xs) ≡ some (f y)
  unfolding find? update_where
  find?-update_where p f [] y same h = cc
  find?-update_where p f (x ∷ xs) y same h =
      ground (arith, same x, find?-update_where p f xs y same)

-- `INSERT ... ON CONFLICT DO NOTHING` into an M:N table.
unfoldable pub has_pair : String → String → List (String × String) → Bool
has_pair a b [] = false
has_pair a b ((c, d) ∷ ps) = str_eq c a && str_eq d b || has_pair a b ps

unfoldable pub insert_pair : String → String → List (String × String) → List (String × String)
unfolding has_pair
insert_pair a b ps = if has_pair a b ps then ps else ps ++ (a, b) ∷ []

unfoldable pub delete_pair : String → String → List (String × String) → List (String × String)
delete_pair a b [] = []
delete_pair a b ((c, d) ∷ ps) =
    let rest = delete_pair a b ps in if str_eq c a && str_eq d b then rest else (c, d) ∷ rest

has_pair-append :
    (a b c d : String) (ps : List (String × String))
    → has_pair c d (ps ++ (a, b) ∷ []) ≡ (str_eq a c && str_eq b d || has_pair c d ps)
unfolding has_pair
has_pair-append a b c d [] = refl
has_pair-append a b c d ((e, f) ∷ ps) = ground (arith, has_pair-append a b c d ps)

same_pair :
    (a b c d : String) (ps : List (String × String))
    → has_pair a b ps ≡ true
    → has_pair c d ps ≡ (str_eq a c && str_eq b d || has_pair c d ps)
same_pair a b c d ps old = elim (Bool-cases (str_eq a c && str_eq b d)) [
  | inl e ↦ ground (arith, eq_iff a c, eq_iff b d)
  | inr e ↦ rw e
]

pub has_pair-insert_pair :
    (a b c d : String) (ps : List (String × String))
    → has_pair c d (insert_pair a b ps) ≡ (str_eq a c && str_eq b d || has_pair c d ps)
unfolding insert_pair
has_pair-insert_pair a b c d ps = elim (Bool-cases (has_pair a b ps)) [
  | inl old ↦ rw old (same_pair a b c d ps old)
  | inr new ↦ rw new (has_pair-append a b c d ps)
]

pub has_pair-delete_pair :
    (a b c d : String) (ps : List (String × String))
    → has_pair c d (delete_pair a b ps) ≡ (not (str_eq a c && str_eq b d) && has_pair c d ps)
unfolding has_pair delete_pair
has_pair-delete_pair a b c d [] = ground arith
has_pair-delete_pair a b c d ((e, f) ∷ ps) = ground (
  arith,
  eq_iff a c,
  eq_iff b d,
  eq_iff e a,
  eq_iff f b,
  eq_iff e c,
  eq_iff f d,
  has_pair-delete_pair a b c d ps,
)
