-- ===== src/Pipeline/Chunker/Numbering.antt =====
-- The chunks of a document are numbered from 0, and each records its own size.
use know_gate.Prelude.{
  ℕ, suc, ◌+◌, ◌≡◌, refl, subst, false, not, ◌||◌, some, List, [], ◌∷◌, ◌++◌, ◌==◌, leb, ltb,
  length, arith, if_cases, elim_cases,
}
use know_gate.Pipeline.Chunker.{
  Text, Encoder, Section, Chunk, Sizes, is_empty, strip, count_tokens, overlapped, chunk_pieces,
  tail_for_overlap, chunk_section, chunk_sections, chunk_by_sections, split_recursive,
  recursive_separators,
}

-- The chunks are numbered from `start` on; none is empty, and each counts its own tokens.
pub data IsNumbered (enc : Encoder) : ℕ → List Chunk → Type 0 where
  none_left : {start : ℕ} → IsNumbered enc start []
  next_is :
      {start : ℕ} {chunk : Chunk} {chunks : List Chunk}
      → chunk.chunk_index ≡ start
      → is_empty chunk.text ≡ false
      → chunk.token_count ≡ count_tokens enc chunk.text
      → IsNumbered enc (suc start) chunks
      → IsNumbered enc start (chunk ∷ chunks)

module _ (enc : Encoder) where
  append-IsNumbered :
      (start : ℕ) (xs ys : List Chunk)
      → IsNumbered enc start xs
      → IsNumbered enc (start + length xs) ys
      → IsNumbered enc start (xs ++ ys)
  append-IsNumbered start [] ys h k = subst (λ n. IsNumbered enc n ys) (omega arith) k
  append-IsNumbered start (x ∷ xs) ys (next_is i t c h) k =
      next_is i t c
        (append-IsNumbered (suc start) xs ys h (subst (λ n. IsNumbered enc n ys) (omega arith) k))

  module _ (max_tokens overlap_tokens : ℕ) where
    chunk_pieces-IsNumbered :
        (section : Section) (start : ℕ) (tail : Text) (pieces : List Text)
        → IsNumbered enc start
            (chunk_pieces enc max_tokens overlap_tokens section start tail pieces)
    unfolding chunk_pieces
    chunk_pieces-IsNumbered section start tail [] = none_left
    chunk_pieces-IsNumbered section start tail (piece ∷ pieces) =
        elim_cases (IsNumbered enc start)
          (is_empty (overlapped enc max_tokens overlap_tokens tail piece))
          (λ _. chunk_pieces-IsNumbered section start tail pieces)
          (λ text. next_is refl text refl (
            chunk_pieces-IsNumbered section (suc start)
              (tail_for_overlap enc (overlapped enc max_tokens overlap_tokens tail piece)
                overlap_tokens)
              pieces))

    chunk_section-IsNumbered :
        (start : ℕ) (section : Section)
        → IsNumbered enc start (chunk_section enc max_tokens overlap_tokens start section)
    unfolding chunk_section
    chunk_section-IsNumbered start section =
        if_cases (IsNumbered enc start) (is_empty (strip enc section.text)) (λ _. none_left)
          (λ text.
            if_cases (IsNumbered enc start)
              (leb (count_tokens enc (strip enc section.text)) max_tokens)
              (λ _. next_is refl text refl none_left)
              (λ _.
                chunk_pieces-IsNumbered section start []
                  (split_recursive enc max_tokens recursive_separators (strip enc section.text))))

    chunk_sections-IsNumbered :
        (start : ℕ) (sections : List Section)
        → IsNumbered enc start (chunk_sections enc max_tokens overlap_tokens start sections)
    unfolding chunk_sections
    chunk_sections-IsNumbered start [] = none_left
    chunk_sections-IsNumbered start (section ∷ sections) =
        append-IsNumbered start (chunk_section enc max_tokens overlap_tokens start section) _
          (chunk_section-IsNumbered start section)
          (chunk_sections-IsNumbered
            (start + length (chunk_section enc max_tokens overlap_tokens start section)) sections)

some_inj : {A : Type 0} {a b : A} → some a ≡ some b → a ≡ b
some_inj h = cc

-- The chunks that `chunk_by_sections` returns are numbered 0, 1, 2 and so on over all the sections,
-- none of them is empty, and each records the number of tokens of its own text.
pub chunk_by_sections-IsNumbered :
    (enc : Encoder) (sizes : Sizes) (sections : List Section) (chunks : List Chunk)
    → chunk_by_sections enc sizes sections ≡ some chunks
    → IsNumbered enc 0 chunks
unfolding chunk_by_sections
chunk_by_sections-IsNumbered enc sizes sections chunks h =
    if_cases (λ o. o ≡ some chunks → IsNumbered enc 0 chunks)
      (sizes.target_tokens == 0
        || ltb sizes.max_tokens sizes.target_tokens
        || not sizes.ratio_in_range)
      (λ _ e. cc)
      (λ _ e. subst (IsNumbered enc 0) (some_inj e) (
        chunk_sections-IsNumbered enc sizes.max_tokens (sizes.overlap_of sizes.target_tokens) 0
          sections))
      h
