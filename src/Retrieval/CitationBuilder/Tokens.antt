-- ===== src/Retrieval/CitationBuilder/Tokens.antt =====
-- The citation tokens that `extract_citation_indices` (backend/app/retrieval/citation_builder.py)
-- finds in a text.
use know_gate.Prelude.{
  ℕ, zero, suc, ◌+◌, ◌*◌, ◌≤◌, ◌≡◌, refl, ap, ◌∙◌, Bool, true, false, Option, none, some, List, [],
  ◌∷◌, ◌++◌, ◌==◌, arith, length, Option-cases, inl, inr, if◌then◌else◌, ltb, lt→ltb, ◌<◌,
}
use know_gate.Prelude.Do.{◌>>=◌}
use know_gate.Retrieval.CitationBuilder.{
  match_digits, match_at, find_from, extract_citation_indices,
}

module _ (digit : ℕ → Option ℕ) (open_bracket : digit b'[' ≡ none)
    (close_bracket : digit b']' ≡ none) where
  -- A match never goes into a following `[`.
  match_digits-append :
      (n : ℕ) (seen : Bool) (cs b : List ℕ)
      → match_digits digit n seen (cs ++ b'[' ∷ b) ≡ match_digits digit n seen cs
  unfolding match_digits
  match_digits-append n seen [] b = ground arith
  match_digits-append n seen (c ∷ cs) b = elim (Option-cases (digit c)) [
    | inl e ↦ rw (e, match_digits)
    | inr (d, e) ↦ rw (e, match_digits, match_digits-append (n * 10 + d) true cs b)
  ]

  match_digits-le :
      (n : ℕ) (seen : Bool) (cs : List ℕ) (v len : ℕ)
      → match_digits digit n seen cs ≡ some (v, len)
      → len ≤ length cs
  unfolding match_digits
  match_digits-le n seen [] v len h = cc
  match_digits-le n seen (c ∷ cs) v len h = elim (Option-cases (digit c)) [
    | inl e ↦ ground arith
    | inr (d, e) ↦ elim (Option-cases (match_digits digit (n * 10 + d) true cs)) [
      | inl e' ↦ ground arith
      | inr ((v', len'), e') ↦ ground (arith, match_digits-le (n * 10 + d) true cs v' len' e')
    ]
  ]

  match_at-append : (c : ℕ) (a b : List ℕ) → match_at digit c (a ++ b'[' ∷ b) ≡ match_at digit c a
  unfolding match_at
  match_at-append c a b = ap (λ m. if c == b'[' then m else none) (match_digits-append 0 false a b)

  match_at-le :
      (c : ℕ) (cs : List ℕ) (v len : ℕ) → match_at digit c cs ≡ some (v, len) → len ≤ length cs
  unfolding match_at
  match_at-le c cs v len h = ground (arith, match_digits-le 0 false cs v len)

  -- Text before a `[` is scanned as if it stood alone.
  find_from-append :
      (skip : ℕ) (a b : List ℕ)
      → skip ≤ length a
      → find_from digit skip (a ++ b'[' ∷ b)
        ≡ find_from digit skip a ++ find_from digit 0 (b'[' ∷ b)
  unfolding find_from
  find_from-append zero [] b h = refl
  find_from-append (suc skip) [] b h = absurd (omega arith)
  find_from-append (suc skip) (c ∷ a) b h = find_from-append skip a b (omega arith)
  find_from-append zero (c ∷ a) b h = elim (Option-cases (match_at digit c a)) [
    | inl e ↦ rw (match_at-append c a b, e, find_from) (find_from-append 0 a b (omega arith))
    | inr ((v, len), e) ↦
        rw (match_at-append c a b, e, find_from)
          (ap (◌∷◌ v) (find_from-append len a b (match_at-le c a v len e)))
  ]

  -- The number that digits stand for, read on from `n`.
  unfoldable pub decimal : ℕ → List ℕ → Option ℕ
  decimal n [] = some n
  decimal n (c ∷ cs) = do d ← digit c; decimal (n * 10 + d) cs

  match_digits-decimal :
      (n : ℕ) (seen : Bool) (ds rest : List ℕ) {v : ℕ}
      → decimal n ds ≡ some v
      → (if seen then true else ltb 0 (length ds)) ≡ true
      → match_digits digit n seen (ds ++ b']' ∷ rest) ≡ some (v, suc (length ds))
  unfolding match_digits decimal
  match_digits-decimal n seen [] rest h nonempty = ground arith
  match_digits-decimal n seen (c ∷ ds) rest h nonempty = elim (Option-cases (digit c)) [
    | inl e ↦ ground arith
    | inr (d, e) ↦
        rw (e, match_digits, match_digits-decimal (n * 10 + d) true ds rest (rw e at h) refl)
  ]

  find_from-skip :
      (ds rest : List ℕ)
      → find_from digit (suc (length ds)) (ds ++ b']' ∷ rest) ≡ find_from digit 0 rest
  unfolding find_from
  find_from-skip [] rest = refl
  find_from-skip (d ∷ ds) rest = find_from-skip ds rest

  -- A token whose digits stand for `v` is found where it stands, between what is found in the text
  -- before it and what is found in the text after it, whatever these texts are.
  pub extract-token :
      (a ds b : List ℕ) (v : ℕ)
      → decimal 0 ds ≡ some v
      → 0 < length ds
      → extract_citation_indices digit (a ++ b'[' ∷ (ds ++ b']' ∷ b))
        ≡ extract_citation_indices digit a ++ v ∷ extract_citation_indices digit b
  unfolding extract_citation_indices find_from match_at
  extract-token a ds b v h nonempty =
      find_from-append 0 a (ds ++ b']' ∷ b) (omega arith)
      ∙ ap (◌++◌ (find_from digit 0 a)) (
          rw (match_digits-decimal 0 false ds b h (lt→ltb 0 (length ds) nonempty), find_from)
            (ap (◌∷◌ v) (find_from-skip ds b)))
