-- ===== src/Tests/Pipeline.antt =====
-- Runs of the chunker of backend/app/pipeline/chunker.py.
use know_gate.Prelude.{
  ℕ, Bool, ltb, ◌&&◌, ◌≡◌, refl, ◌≤◌, true, some, List, [], ◌∷◌, arith, ◌==◌, All, length, if_cases,
}
use know_gate.Pipeline.Chunker.{
  Text, Encoder, Section, Chunk, Sizes, chunk_by_sections, count_tokens, split_recursive,
  recursive_separators, chunk_sections, chunk_section, chunk_pieces, overlapped, trim_to_tokens,
  tail_for_overlap, reassemble, slices, slice_rest, split_from, starts_with, lstrip, rstrip, strip,
  is_empty,
}
use know_gate.Pipeline.Chunker.Content.{kept, flat, split_recursive-kept}
use know_gate.Pipeline.Chunker.Numbering.{IsNumbered, chunk_by_sections-IsNumbered}

-- A token for each code point.
abbrev pub letters : Encoder
letters = record { encode = λ t. t; decode = λ t. t; is_space = λ c. c == b' ' }

abbrev pub sizes : Sizes
sizes = record { target_tokens = 2; max_tokens = 3; ratio_in_range = true; overlap_of = λ _. 1 }

abbrev pub two_sentences : Text
two_sentences = b'a' ∷ b'b' ∷ b'.' ∷ b' ' ∷ b'c' ∷ b'd' ∷ []

abbrev pub body : Section
body = record { title = "Body"; text = two_sentences; page_number = some 1 }

abbrev chunks : List Chunk
chunks =
    record {
      text = b'a' ∷ b'b' ∷ [];
      section_title = "Body";
      chunk_index = 0;
      token_count = 2;
      page_number = some 1;
    }
    ∷ record {
      text = b'b' ∷ b'c' ∷ b'd' ∷ [];
      section_title = "Body";
      chunk_index = 1;
      token_count = 3;
      page_number = some 1;
    }
    ∷ []

chunked : chunk_by_sections letters sizes (body ∷ []) ≡ some chunks
unfolding chunk_by_sections chunk_sections chunk_section chunk_pieces overlapped trim_to_tokens
    tail_for_overlap split_recursive reassemble slices slice_rest split_from starts_with
    count_tokens lstrip rstrip
chunked = refl

chunk_by_sections-IsNumbered_example : IsNumbered letters 0 chunks
chunk_by_sections-IsNumbered_example =
    chunk_by_sections-IsNumbered letters sizes (body ∷ []) chunks chunked

sliced : slices 2 two_sentences ≡ (b'a' ∷ b'b' ∷ []) ∷ (b'.' ∷ b' ' ∷ []) ∷ (b'c' ∷ b'd' ∷ []) ∷ []
unfolding slices slice_rest
sliced = refl

short_texts : (t : Text) → length t ≤ 3 → count_tokens letters t ≤ 3
unfolding count_tokens
short_texts t h = if_cases (λ n. n ≤ 3) (is_empty (strip letters t)) (λ _. omega arith) (λ _. h)

abbrev is_letter : ℕ → Bool
is_letter c = ltb 64 c && ltb c 128

no_letters : All (λ sep. kept is_letter sep ≡ []) recursive_separators
no_letters = (refl, (refl, (refl, (refl, (refl, (refl, (refl, (refl, tt))))))))

split_recursive-kept_example :
    kept is_letter (flat (split_recursive letters 3 recursive_separators two_sentences))
    ≡ kept is_letter two_sentences
split_recursive-kept_example =
    split_recursive-kept is_letter letters 3 recursive_separators two_sentences no_letters
