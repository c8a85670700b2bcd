-- ===== src/Pipeline/Chunker/Separators.antt =====
-- What `str.split` is to the chunker: joining its pieces by the separator gives the text.
use know_gate.Prelude.{
  ℕ, zero, suc, ◌-◌, ◌≡◌, refl, ap, ◌∙◌, Bool, true, false, List, [], ◌∷◌, ◌++◌, length, drop,
  arith, elim_cases,
}
use know_gate.Pipeline.Chunker.{Text, push, starts_with, split_from}

-- `sep.join(pieces)`
abbrev pub join : Text → List Text → Text
join sep [] = []
join sep (piece ∷ []) = piece
join sep (piece ∷ next ∷ pieces) = piece ++ sep ++ join sep (next ∷ pieces)

abbrev no_piece : List Text → Bool
no_piece [] = true
no_piece (piece ∷ pieces) = false

join-cons :
    (sep piece : Text) (pieces : List Text)
    → no_piece pieces ≡ false
    → join sep (piece ∷ pieces) ≡ piece ++ sep ++ join sep pieces
join-cons sep piece [] h = cc
join-cons sep piece (next ∷ pieces) h = refl

join-push :
    (sep : Text) (c : ℕ) (pieces : List Text) → join sep (push c pieces) ≡ c ∷ join sep pieces
join-push sep c [] = refl
join-push sep c (piece ∷ []) = refl
join-push sep c (piece ∷ next ∷ pieces) = refl

no_piece-push : (c : ℕ) (pieces : List Text) → no_piece (push c pieces) ≡ false
no_piece-push c [] = refl
no_piece-push c (piece ∷ pieces) = refl

split_from-some :
    (sep : Text) (skip : ℕ) (text : Text) → no_piece (split_from sep skip text) ≡ false
unfolding split_from
split_from-some sep skip [] = refl
split_from-some sep (suc skip) (c ∷ cs) = split_from-some sep skip cs
split_from-some sep zero (c ∷ cs) =
    elim_cases (λ ps. no_piece ps ≡ false) (starts_with sep (c ∷ cs)) (λ _. refl)
      (λ _. no_piece-push c (split_from sep 0 cs))

starts_with-append :
    (sep text : Text) → starts_with sep text ≡ true → sep ++ drop (length sep) text ≡ text
unfolding starts_with
starts_with-append [] text h = refl
starts_with-append (s ∷ sep) [] h = cc
starts_with-append (s ∷ sep) (c ∷ cs) h = ground (arith, starts_with-append sep cs)

join-split_from :
    (s : ℕ) (sep : Text) (skip : ℕ) (text : Text)
    → join (s ∷ sep) (split_from (s ∷ sep) skip text) ≡ drop skip text
unfolding split_from
join-split_from s sep zero [] = refl
join-split_from s sep (suc skip) [] = refl
join-split_from s sep (suc skip) (c ∷ cs) = join-split_from s sep skip cs
join-split_from s sep zero (c ∷ cs) =
    elim_cases (λ ps. join (s ∷ sep) ps ≡ c ∷ cs) (starts_with (s ∷ sep) (c ∷ cs))
      (λ found.
        join-cons (s ∷ sep) [] (split_from (s ∷ sep) (length (s ∷ sep) - 1) cs)
          (split_from-some (s ∷ sep) (length (s ∷ sep) - 1) cs)
        ∙ ap (λ t. s ∷ sep ++ t) (join-split_from s sep (length (s ∷ sep) - 1) cs)
        ∙ ap (λ n. s ∷ sep ++ drop n cs) (omega arith)
        ∙ starts_with-append (s ∷ sep) (c ∷ cs) found)
      (λ _.
        join-push (s ∷ sep) c (split_from (s ∷ sep) 0 cs)
        ∙ ap (λ t. c ∷ t) (join-split_from s sep 0 cs))

-- Joining the pieces of a text by the separator that it was split on gives the text again, for every
-- separator that is not empty.
pub join-split : (s : ℕ) (sep text : Text) → join (s ∷ sep) (split_from (s ∷ sep) 0 text) ≡ text
join-split s sep text = join-split_from s sep 0 text
