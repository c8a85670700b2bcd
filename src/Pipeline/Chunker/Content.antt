-- ===== src/Pipeline/Chunker/Content.antt =====
-- What the recursive splitter keeps of a text: the separators at which it flushes are dropped, and
-- nothing else is.
use know_gate.Prelude.{
  ℕ, zero, suc, ◌-◌, ◌≡◌, refl, ap, sym, ◌∙◌, Bool, false, List, [], ◌∷◌, ◌++◌, leb, if◌then◌else◌,
  All, if_cases, elim_cases, append_assoc, append-nil, Bool-cases, inl, inr,
}
use know_gate.Pipeline.Chunker.{
  Text, Encoder, push, slice_rest, slices, flush, joined, reassemble, is_empty, is_single,
  split_from, split_recursive, count_tokens,
}
use know_gate.Pipeline.Chunker.Separators.{join, join-split}

-- The pieces one after the other.
abbrev pub flat : List Text → Text
flat [] = []
flat (piece ∷ pieces) = piece ++ flat pieces

flat-append : (xs ys : List Text) → flat (xs ++ ys) ≡ flat xs ++ flat ys
flat-append [] ys = refl
flat-append (x ∷ xs) ys =
    ap (λ t. x ++ t) (flat-append xs ys) ∙ sym (append_assoc x (flat xs) (flat ys))

flat-push : (c : ℕ) (pieces : List Text) → flat (push c pieces) ≡ c ∷ flat pieces
flat-push c [] = refl
flat-push c (piece ∷ pieces) = refl

flat-slice_rest :
    (max_tokens room : ℕ) (text : Text) → flat (slice_rest max_tokens room text) ≡ text
unfolding slice_rest
flat-slice_rest max_tokens room [] = refl
flat-slice_rest max_tokens zero (c ∷ cs) =
    flat-push c (slice_rest max_tokens (max_tokens - 1) cs)
    ∙ ap (λ t. c ∷ t) (flat-slice_rest max_tokens (max_tokens - 1) cs)
flat-slice_rest max_tokens (suc room) (c ∷ cs) =
    flat-push c (slice_rest max_tokens room cs)
    ∙ ap (λ t. c ∷ t) (flat-slice_rest max_tokens room cs)

flat-slices : (max_tokens : ℕ) (text : Text) → flat (slices max_tokens text) ≡ text
unfolding slices
flat-slices max_tokens [] = refl
flat-slices max_tokens (c ∷ cs) =
    flat-push c (slice_rest max_tokens (max_tokens - 1) cs)
    ∙ ap (λ t. c ∷ t) (flat-slice_rest max_tokens (max_tokens - 1) cs)

-- The code points of a text that a test keeps.
abbrev pub kept : (ℕ → Bool) → Text → Text
kept keep [] = []
kept keep (c ∷ cs) = if keep c then c ∷ kept keep cs else kept keep cs

module _ (keep : ℕ → Bool) where
  kept-append : (xs ys : Text) → kept keep (xs ++ ys) ≡ kept keep xs ++ kept keep ys
  kept-append [] ys = refl
  kept-append (c ∷ cs) ys = elim (Bool-cases (keep c)) [
    | inl e ↦ rw e (ap (λ t. c ∷ t) (kept-append cs ys))
    | inr e ↦ rw e (kept-append cs ys)
  ]

  module _ (sep : Text) (blank : kept keep sep ≡ []) where
    kept-around : (a b : Text) → kept keep (a ++ sep ++ b) ≡ kept keep a ++ kept keep b
    kept-around a b =
        kept-append (a ++ sep) b
        ∙ ap (λ t. t ++ kept keep b)
            (kept-append a sep ∙ ap (λ t. kept keep a ++ t) blank ∙ append-nil (kept keep a))

    kept-joined :
        (buffer piece : Text)
        → kept keep (joined sep buffer piece) ≡ kept keep buffer ++ kept keep piece
    kept-joined [] piece = refl
    kept-joined (c ∷ buffer) piece = kept-around (c ∷ buffer) piece

    kept-join : (pieces : List Text) → kept keep (join sep pieces) ≡ kept keep (flat pieces)
    kept-join [] = refl
    kept-join (piece ∷ []) = ap (kept keep) (sym (append-nil piece))
    kept-join (piece ∷ next ∷ pieces) =
        kept-around piece (join sep (next ∷ pieces))
        ∙ ap (λ t. kept keep piece ++ t) (kept-join (next ∷ pieces))
        ∙ sym (kept-append piece (flat (next ∷ pieces)))

    kept-flush :
        (deeper : Text → List Text)
        → ((t : Text) → kept keep (flat (deeper t)) ≡ kept keep t)
        → (buffer : Text) → kept keep (flat (flush deeper buffer)) ≡ kept keep buffer
    kept-flush deeper same [] = refl
    kept-flush deeper same (c ∷ cs) = same (c ∷ cs)

    kept-reassemble :
        (enc : Encoder) (max_tokens : ℕ) (deeper : Text → List Text)
        → ((t : Text) → kept keep (flat (deeper t)) ≡ kept keep t)
        → (buffer : Text) (pieces : List Text)
        → kept keep (flat (reassemble enc max_tokens sep deeper buffer pieces))
          ≡ kept keep buffer ++ kept keep (flat pieces)
    unfolding reassemble
    kept-reassemble enc max_tokens deeper same buffer [] =
        kept-flush deeper same buffer ∙ sym (append-nil (kept keep buffer))
    kept-reassemble enc max_tokens deeper same buffer (piece ∷ pieces) =
        elim_cases
          (λ ps. kept keep (flat ps) ≡ kept keep buffer ++ kept keep (piece ++ flat pieces))
          (leb (count_tokens enc (joined sep buffer piece)) max_tokens)
          (λ _.
            kept-reassemble enc max_tokens deeper same (joined sep buffer piece) pieces
            ∙ ap (λ t. t ++ kept keep (flat pieces)) (kept-joined buffer piece)
            ∙ regroup buffer piece pieces)
          (λ _.
            ap (kept keep) (
              flat-append (flush deeper buffer) (reassemble enc max_tokens sep deeper piece pieces))
            ∙ kept-append (flat (flush deeper buffer))
                (flat (reassemble enc max_tokens sep deeper piece pieces))
            ∙ ap (λ t. t ++ kept keep (flat (reassemble enc max_tokens sep deeper piece pieces)))
                (kept-flush deeper same buffer)
            ∙ ap (λ t. kept keep buffer ++ t)
                (kept-reassemble enc max_tokens deeper same piece pieces)
            ∙ ap (λ t. kept keep buffer ++ t) (sym (kept-append piece (flat pieces))))
      where
        regroup :
            (buffer piece : Text) (pieces : List Text)
            → (kept keep buffer ++ kept keep piece) ++ kept keep (flat pieces)
              ≡ kept keep buffer ++ kept keep (piece ++ flat pieces)
        regroup buffer piece pieces =
            append_assoc (kept keep buffer) (kept keep piece) (kept keep (flat pieces))
            ∙ ap (λ t. kept keep buffer ++ t) (sym (kept-append piece (flat pieces)))

  kept-whole : (text : Text) → kept keep (flat (flush (λ t. t ∷ []) text)) ≡ kept keep text
  kept-whole [] = refl
  kept-whole (c ∷ cs) = ap (kept keep) (append-nil (c ∷ cs))

  kept-pieces :
      (sep : Text)
      → is_empty sep ≡ false
      → kept keep sep ≡ []
      → (text : Text) → kept keep (flat (split_from sep 0 text)) ≡ kept keep text
  kept-pieces [] some_sep blank text = cc
  kept-pieces (s ∷ sep) some_sep blank text =
      sym (kept-join (s ∷ sep) blank (split_from (s ∷ sep) 0 text))
      ∙ ap (kept keep) (join-split s sep text)

  -- The pieces of the recursive splitter have, in order, every code point of the text that occurs in
  -- no separator: for any test that fails on the code points of all the separators, the code points
  -- that it keeps of the pieces are those that it keeps of the text.
  pub split_recursive-kept :
      (enc : Encoder) (max_tokens : ℕ) (separators : List Text) (text : Text)
      → All (λ sep. kept keep sep ≡ []) separators
      → kept keep (flat (split_recursive enc max_tokens separators text)) ≡ kept keep text
  unfolding split_recursive
  split_recursive-kept enc max_tokens [] text blank =
      if_cases (λ ps. kept keep (flat ps) ≡ kept keep text) (leb (count_tokens enc text) max_tokens)
        (λ _. kept-whole text) (λ _. ap (kept keep) (flat-slices max_tokens text))
  split_recursive-kept enc max_tokens (sep ∷ separators) text blank =
      if_cases (λ ps. kept keep (flat ps) ≡ kept keep text) (leb (count_tokens enc text) max_tokens)
        (λ _. kept-whole text)
        (λ _.
          if_cases (λ ps. kept keep (flat ps) ≡ kept keep text) (is_empty sep)
            (λ _. ap (kept keep) (flat-slices max_tokens text))
            (λ some_sep.
              if_cases (λ ps. kept keep (flat ps) ≡ kept keep text)
                (is_single (split_from sep 0 text))
                (λ _. split_recursive-kept enc max_tokens separators text blank.1)
                (λ _.
                  kept-reassemble sep blank.0 enc max_tokens
                    (λ t. split_recursive enc max_tokens separators t)
                    (λ t. split_recursive-kept enc max_tokens separators t blank.1) []
                    (split_from sep 0 text)
                  ∙ kept-pieces sep some_sep blank.0 text)))
