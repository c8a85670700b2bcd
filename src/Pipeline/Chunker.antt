-- ===== src/Pipeline/Chunker.antt =====
-- backend/app/pipeline/chunker.py, with `count_tokens` of tokenizer.py. A text is the list of its code
-- points. The encoder of tiktoken and the test for white space are given, as is
-- `int(target_tokens * overlap_ratio)`; getting the encoder is taken to succeed.
pub mod Separators
pub mod Content
pub mod Numbering
use know_gate.Prelude.{
  ℕ, zero, suc, ◌+◌, ◌-◌, String, Bool, true, false, not, ◌&&◌, ◌||◌, Option, none, some, List, [],
  ◌∷◌, ◌++◌, ◌==◌, leb, ltb, if◌then◌else◌, length, take, drop,
}

abbrev pub Text : Type 0
Text = List ℕ

pub record Encoder : Type 0 where
  pub encode : Text → List ℕ
  pub decode : List ℕ → Text
  pub is_space : ℕ → Bool

pub record Section : Type 0 where
  pub title : String
  pub text : Text
  pub page_number : Option ℕ

pub record Chunk : Type 0 where
  pub text : Text
  pub section_title : String
  pub chunk_index : ℕ
  pub token_count : ℕ
  pub page_number : Option ℕ

abbrev pub is_empty : Text → Bool
is_empty [] = true
is_empty (c ∷ cs) = false

unfoldable pub lstrip : (ℕ → Bool) → Text → Text
lstrip space [] = []
lstrip space (c ∷ cs) = let rest = lstrip space cs in if space c then rest else c ∷ cs

unfoldable pub rstrip : (ℕ → Bool) → Text → Text
rstrip space [] = []
rstrip space (c ∷ cs) =
    let rest = rstrip space cs in if is_empty rest && space c then [] else c ∷ rest

abbrev pub strip : Encoder → Text → Text
strip enc text = rstrip enc.is_space (lstrip enc.is_space text)

unfoldable pub count_tokens : Encoder → Text → ℕ
unfolding lstrip rstrip
count_tokens enc text = if is_empty (strip enc text) then 0 else length (enc.encode text)

-- `text.startswith(sep)`
unfoldable pub starts_with : Text → Text → Bool
starts_with [] text = true
starts_with (s ∷ sep) [] = false
starts_with (s ∷ sep) (c ∷ text) = s == c && starts_with sep text

abbrev pub push : ℕ → List Text → List Text
push c [] = (c ∷ []) ∷ []
push c (piece ∷ pieces) = (c ∷ piece) ∷ pieces

-- `text.split(sep)` for a `sep` that is not empty. `skip` counts the code points that belong to the
-- separator before.
unfoldable pub split_from : Text → ℕ → Text → List Text
split_from sep skip [] = [] ∷ []
split_from sep (suc skip) (c ∷ cs) = split_from sep skip cs
split_from sep zero (c ∷ cs) = elim (starts_with sep (c ∷ cs)) [
  | true ↦ [] ∷ split_from sep (length sep - 1) cs
  | false ↦ push c (split_from sep 0 cs)
]

-- The slices `text[i : i + max_tokens]`. The first list of `slice_rest` is what still belongs to the
-- slice before, which takes `room` more code points.
unfoldable pub slice_rest : ℕ → ℕ → Text → List Text
slice_rest max_tokens room [] = [] ∷ []
slice_rest max_tokens zero (c ∷ cs) = [] ∷ push c (slice_rest max_tokens (max_tokens - 1) cs)
slice_rest max_tokens (suc room) (c ∷ cs) = push c (slice_rest max_tokens room cs)

unfoldable pub slices : ℕ → Text → List Text
unfolding slice_rest
slices max_tokens [] = []
slices max_tokens (c ∷ cs) = push c (slice_rest max_tokens (max_tokens - 1) cs)

-- `_RECURSIVE_SEPARATORS`
abbrev pub recursive_separators : List Text
recursive_separators =
    (10 ∷ 10 ∷ [])
    ∷ (10 ∷ [])
    ∷ (46 ∷ 32 ∷ [])
    ∷ (33 ∷ 32 ∷ [])
    ∷ (63 ∷ 32 ∷ [])
    ∷ (12290 ∷ [])
    ∷ (32 ∷ [])
    ∷ []
    ∷ []

abbrev pub joined : Text → Text → Text → Text
joined sep [] piece = piece
joined sep (c ∷ buffer) piece = (c ∷ buffer) ++ sep ++ piece

abbrev pub flush : (Text → List Text) → Text → List Text
flush deeper [] = []
flush deeper (c ∷ buffer) = deeper (c ∷ buffer)

-- The loop that reassembles the pieces in a buffer and flushes it when it would get too big.
unfoldable pub reassemble : Encoder → ℕ → Text → (Text → List Text) → Text → List Text → List Text
unfolding count_tokens
reassemble enc max_tokens sep deeper buffer [] = flush deeper buffer
reassemble enc max_tokens sep deeper buffer (piece ∷ pieces) =
    elim (leb (count_tokens enc (joined sep buffer piece)) max_tokens) [
      | true ↦ reassemble enc max_tokens sep deeper (joined sep buffer piece) pieces
      | false ↦ flush deeper buffer ++ reassemble enc max_tokens sep deeper piece pieces
    ]

abbrev pub is_single : List Text → Bool
is_single (piece ∷ []) = true
is_single _ = false

-- The separators from the depth on stand for the depth.
unfoldable pub split_recursive : Encoder → ℕ → List Text → Text → List Text
unfolding count_tokens reassemble slices split_from
split_recursive enc max_tokens [] text =
    if leb (count_tokens enc text) max_tokens
    then flush (λ t. t ∷ []) text
    else slices max_tokens text
split_recursive enc max_tokens (sep ∷ deeper) text =
    let next = split_recursive enc max_tokens deeper in
    if leb (count_tokens enc text) max_tokens
    then flush (λ t. t ∷ []) text
    else if is_empty sep
    then slices max_tokens text
    else if is_single (split_from sep 0 text)
    then next text
    else reassemble enc max_tokens sep next [] (split_from sep 0 text)

abbrev pub last {ℓ} : {A : Type ℓ} → ℕ → List A → List A
last n xs = drop (length xs - n) xs

unfoldable pub tail_for_overlap : Encoder → Text → ℕ → Text
tail_for_overlap enc text overlap_tokens =
    if overlap_tokens == 0 || is_empty text
    then []
    else if leb (length (enc.encode text)) overlap_tokens
    then text
    else enc.decode (last overlap_tokens (enc.encode text))

unfoldable pub trim_to_tokens : Encoder → Text → ℕ → Text
unfolding count_tokens
trim_to_tokens enc text max_tokens =
    if leb (count_tokens enc text) max_tokens
    then text
    else if leb (length (enc.encode text)) max_tokens
    then text
    else enc.decode (last max_tokens (enc.encode text))

pub record Sizes : Type 0 where
  pub target_tokens : ℕ
  pub max_tokens : ℕ
  pub ratio_in_range : Bool
  pub overlap_of : ℕ → ℕ

abbrev pub chunk_of : Encoder → Section → ℕ → Text → Chunk
chunk_of enc section next_index text = record {
  text = text;
  section_title = section.title;
  chunk_index = next_index;
  token_count = count_tokens enc text;
  page_number = section.page_number;
}

-- The text of a piece behind the tail of the one before; no tail is the empty text.
unfoldable pub overlapped : Encoder → ℕ → ℕ → Text → Text → Text
unfolding trim_to_tokens lstrip rstrip
overlapped enc max_tokens overlap_tokens prev_tail piece = strip enc (
    if not (is_empty prev_tail) && ltb 0 overlap_tokens
    then trim_to_tokens enc (prev_tail ++ piece) max_tokens
    else piece)

unfoldable pub chunk_pieces : Encoder → ℕ → ℕ → Section → ℕ → Text → List Text → List Chunk
unfolding overlapped tail_for_overlap
chunk_pieces enc max_tokens overlap_tokens section next_index prev_tail [] = []
chunk_pieces enc max_tokens overlap_tokens section next_index prev_tail (piece ∷ pieces) =
    let text = overlapped enc max_tokens overlap_tokens prev_tail piece in
    elim (is_empty text) [
      | true ↦ chunk_pieces enc max_tokens overlap_tokens section next_index prev_tail pieces
      | false ↦
          chunk_of enc section next_index text
          ∷ chunk_pieces enc max_tokens overlap_tokens section (suc next_index)
              (tail_for_overlap enc text overlap_tokens) pieces
    ]

-- One turn of the loop over the sections.
unfoldable pub chunk_section : Encoder → ℕ → ℕ → ℕ → Section → List Chunk
unfolding chunk_pieces split_recursive
chunk_section enc max_tokens overlap_tokens next_index section =
    let text = strip enc section.text in
    if is_empty text
    then []
    else if leb (count_tokens enc text) max_tokens
    then chunk_of enc section next_index text ∷ []
    else chunk_pieces enc max_tokens overlap_tokens section next_index []
        (split_recursive enc max_tokens recursive_separators text)

unfoldable pub chunk_sections : Encoder → ℕ → ℕ → ℕ → List Section → List Chunk
unfolding chunk_section
chunk_sections enc max_tokens overlap_tokens next_index [] = []
chunk_sections enc max_tokens overlap_tokens next_index (section ∷ sections) =
    let chunks = chunk_section enc max_tokens overlap_tokens next_index section in
    chunks ++ chunk_sections enc max_tokens overlap_tokens (next_index + length chunks) sections

-- `none` stands for the ValueError.
unfoldable pub chunk_by_sections : Encoder → Sizes → List Section → Option (List Chunk)
unfolding chunk_sections
chunk_by_sections enc sizes sections =
    if sizes.target_tokens == 0
      || ltb sizes.max_tokens sizes.target_tokens
      || not sizes.ratio_in_range
    then none
    else some
        (chunk_sections enc sizes.max_tokens (sizes.overlap_of sizes.target_tokens) 0 sections)
