-- ===== src/Prelude/Sort.antt =====
-- Python's `list.sort(key=..., reverse=True)`: descending, and equal keys keep their order. `le` is
-- the comparison of the keys of two elements.
use mathlib.Core.Path.{◌≡◌}
use mathlib.Core.Bool.{Bool, true}
use mathlib.Core.Logic.{◌⊎◌, inl, inr}
use mathlib.Core.List.{List, [], ◌∷◌, Perm}
use mathlib.Core.List.Perm
use know_gate.Prelude.Tests.{if◌then◌else◌, Bool-cases}
use know_gate.Prelude.Lists.{All}

module _ {ℓ} {A : Type ℓ} (le : A → A → Bool) where
  unfoldable pub insert_desc : A → List A → List A
  insert_desc x [] = x ∷ []
  insert_desc x (y ∷ ys) = if le y x then x ∷ y ∷ ys else y ∷ insert_desc x ys

  unfoldable pub sort_desc : List A → List A
  unfolding insert_desc
  sort_desc [] = []
  sort_desc (x ∷ xs) = insert_desc x (sort_desc xs)

  -- Each element is at least all that follow it.
  abbrev pub Descending : List A → Type 0
  Descending [] = Unit
  Descending (x ∷ xs) = All (λ y. le y x ≡ true) xs × Descending xs

module _ {ℓ} {A : Type ℓ} (le : A → A → Bool) where
  insert_desc-Perm : (x : A) (ys : List A) → Perm (insert_desc le x ys) (x ∷ ys)
  unfolding insert_desc
  insert_desc-Perm x [] = Perm.refl (x ∷ [])
  insert_desc-Perm x (y ∷ ys) = elim (Bool-cases (le y x)) [
    | inl h ↦ rw h (Perm.refl (x ∷ y ∷ ys))
    | inr h ↦ rw h (Perm.trans (Perm.cons y (insert_desc-Perm x ys)) (Perm.swap x y ys))
  ]

  pub sort_desc-Perm : (xs : List A) → Perm (sort_desc le xs) xs
  unfolding sort_desc
  sort_desc-Perm [] = Perm.refl []
  sort_desc-Perm (x ∷ xs) =
      Perm.trans (insert_desc-Perm x (sort_desc le xs)) (Perm.cons x (sort_desc-Perm xs))

  module _ {κ} (P : A → Type κ) where
    pub insert_desc-All : (x : A) (ys : List A) → P x → All P ys → All P (insert_desc le x ys)
    unfolding insert_desc
    insert_desc-All x [] p h = (p, tt)
    insert_desc-All x (y ∷ ys) p h = elim (Bool-cases (le y x)) [
      | inl e ↦ rw e (p, h)
      | inr e ↦ rw e (h.0, insert_desc-All x ys p h.1)
    ]

    pub sort_desc-All : (xs : List A) → All P xs → All P (sort_desc le xs)
    unfolding sort_desc
    sort_desc-All [] h = tt
    sort_desc-All (x ∷ xs) h = insert_desc-All x (sort_desc le xs) h.0 (sort_desc-All xs h.1)

  -- Over a comparison that is transitive and total.
  module _ (le_trans : (a b c : A) → le a b ≡ true → le b c ≡ true → le a c ≡ true)
      (le_total : (a b : A) → (le a b ≡ true) ⊎ (le b a ≡ true)) where
    All-le_trans :
        (a b : A) (ys : List A)
        → le a b ≡ true
        → All (λ y. le y a ≡ true) ys
        → All (λ y. le y b ≡ true) ys
    All-le_trans a b [] h k = tt
    All-le_trans a b (y ∷ ys) h k = (le_trans y a b k.0 h, All-le_trans a b ys h k.1)

    insert_desc-Descending :
        (x : A) (ys : List A) → Descending le ys → Descending le (insert_desc le x ys)
    unfolding insert_desc
    insert_desc-Descending x [] d = (tt, tt)
    insert_desc-Descending x (y ∷ ys) d = elim (Bool-cases (le y x)) [
      | inl e ↦ rw e ((e, All-le_trans y x ys e d.0), d)
      | inr e ↦
          let below : le x y ≡ true = elim (le_total x y) [ inl h ↦ h | inr h ↦ cc ] in
          rw e
            (insert_desc-All (λ z. le z y ≡ true) x ys below d.0, insert_desc-Descending x ys d.1)
    ]

    pub sort_desc-Descending : (xs : List A) → Descending le (sort_desc le xs)
    unfolding sort_desc
    sort_desc-Descending [] = tt
    sort_desc-Descending (x ∷ xs) =
        insert_desc-Descending x (sort_desc le xs) (sort_desc-Descending xs)
