-- ===== src/Prelude/Order.antt =====
-- Total orders given by a test, and Python's order of texts: by the numbers of their characters.
use Prim.Native.Nat.{Ordering}
use Prim.Native.Char.{Char, code}
use Prim.Native.String.{String, compare}
use Prim.Native.String.compare as string_compare
use mathlib.Core.Path.{◌≡◌, refl, ap, ◌∙◌}
use mathlib.Core.Bool.{Bool, true, false, ◌&&◌, ◌||◌}
use mathlib.Core.Logic.{◌⊎◌, inl, inr}
use native.Mathlib.Omega.{arith}
use text.Mathlib.TextEquality.{path_by_compare}
use know_gate.Prelude.Tests.{ltb, ◌==◌}

pub record IsOrder {K : Type 0} (le : K → K → Bool) : Type 0 where
  pub le_trans : (a b c : K) → le a b ≡ true → le b c ≡ true → le a c ≡ true
  pub le_total : (a b : K) → (le a b ≡ true) ⊎ (le b a ≡ true)
  pub le_antisym : (a b : K) → le a b ≡ true → le b a ≡ true → a ≡ b

abbrev not_gt : Ordering → Bool
not_gt Ordering.lt = true
not_gt Ordering.eq = true
not_gt Ordering.gt = false

-- `s <= t`
pub str_le : String → String → Bool
str_le s t = not_gt (compare s t)

pub str_le-nil : (t : String) → str_le "" t ≡ true
unfolding str_le
str_le-nil String.[] = refl
str_le-nil (String.◌∷◌ d t) = ap not_gt (string_compare.nil-cons d t)

cons-str_le-nil : (c : Char) (s : String) → str_le (String.◌∷◌ c s) "" ≡ false
unfolding str_le
cons-str_le-nil c s = ap not_gt (string_compare.cons-nil c s)

str_le-cons :
    (c d : Char) (s t : String)
    → str_le (String.◌∷◌ c s) (String.◌∷◌ d t)
      ≡ (ltb (code c) (code d) || (code c == code d && str_le s t))
unfolding str_le
str_le-cons c d s t = ap not_gt (string_compare.cons-cons c d s t) ∙ ground arith

str_le_trans : (s t u : String) → str_le s t ≡ true → str_le t u ≡ true → str_le s u ≡ true
str_le_trans String.[] t u h k = str_le-nil u
str_le_trans (String.◌∷◌ c s) String.[] u h k = cc (cons-str_le-nil c s)
str_le_trans (String.◌∷◌ c s) (String.◌∷◌ d t) String.[] h k = cc (cons-str_le-nil d t)
str_le_trans (String.◌∷◌ c s) (String.◌∷◌ d t) (String.◌∷◌ e u) h k =
    ground
      (arith, str_le-cons c d s t, str_le-cons d e t u, str_le-cons c e s u, str_le_trans s t u)

str_le_total : (s t : String) → (str_le s t ≡ true) ⊎ (str_le t s ≡ true)
str_le_total String.[] t = inl (str_le-nil t)
str_le_total (String.◌∷◌ c s) String.[] = inr (str_le-nil (String.◌∷◌ c s))
str_le_total (String.◌∷◌ c s) (String.◌∷◌ d t) =
    ground (arith, str_le-cons c d s t, str_le-cons d c t s, str_le_total s t)

-- Texts that are each at most the other compare as equal.
both_le : (s t : String) → str_le s t ≡ true → str_le t s ≡ true → compare s t ≡ Ordering.eq
both_le String.[] String.[] h k = string_compare.nil-nil
both_le String.[] (String.◌∷◌ d t) h k = cc (cons-str_le-nil d t)
both_le (String.◌∷◌ c s) String.[] h k = cc (cons-str_le-nil c s)
both_le (String.◌∷◌ c s) (String.◌∷◌ d t) h k =
    string_compare.cons-cons c d s t
    ∙ ground (arith, str_le-cons c d s t, str_le-cons d c t s, both_le s t)

pub str_le-IsOrder : IsOrder str_le
str_le-IsOrder = record {
  le_trans = str_le_trans;
  le_total = str_le_total;
  le_antisym = λ s t h k. path_by_compare s t (both_le s t h k);
}
