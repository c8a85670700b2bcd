-- ===== src/Retrieval/CitationBuilder.antt =====
-- backend/app/retrieval/citation_builder.py. The answer of the LLM is a list of code points. The
-- regular expression `\[(\d+)\]` matches any Unicode decimal digit, so the value of a code point as
-- a digit is a parameter of the scanner, as is `isoformat` of a time stamp.
pub mod Tokens
pub mod Indices
use know_gate.Prelude.{
  ℕ, zero, suc, ◌+◌, ◌*◌, String, Bool, true, false, ◌&&◌, not, Option, none, some, List, [], ◌∷◌,
  ◌==◌, leb, ltb, if◌then◌else◌, length, any, str_eq,
}
use know_gate.Prelude.Dict.{Dict, get}
use know_gate.Retrieval.HybridSearch.{SearchCandidate}

-- The `\d+` and the closing bracket after `[`: the number, and how many code points they are. `n` is
-- the value of the digits read, `seen` says that there was one.
unfoldable pub match_digits : (ℕ → Option ℕ) → ℕ → Bool → List ℕ → Option (ℕ × ℕ)
match_digits digit n seen [] = none
match_digits digit n seen (c ∷ cs) = elim (digit c) [
  | some d ↦ elim (match_digits digit (n * 10 + d) true cs) [
    | some (v, len) ↦ some (v, suc len)
    | none ↦ none
  ]
  | none ↦ if c == b']' && seen then some (n, 1) else none
]

-- A match of the expression that begins at the first code point.
unfoldable pub match_at : (ℕ → Option ℕ) → ℕ → List ℕ → Option (ℕ × ℕ)
unfolding match_digits
match_at digit c cs = if c == b'[' then match_digits digit 0 false cs else none

-- `finditer`: the first match, and so on from its end. `skip` counts the code points that belong to
-- the match before.
unfoldable pub find_from : (ℕ → Option ℕ) → ℕ → List ℕ → List ℕ
find_from digit skip [] = []
find_from digit (suc skip) (c ∷ cs) = find_from digit skip cs
find_from digit zero (c ∷ cs) = elim (match_at digit c cs) [
  | some (v, len) ↦ v ∷ find_from digit len cs
  | none ↦ find_from digit 0 cs
]

unfoldable pub extract_citation_indices : (ℕ → Option ℕ) → List ℕ → List ℕ
unfolding find_from match_at
extract_citation_indices digit answer_text = find_from digit 0 answer_text

pub record Citation (S : Type 0) : Type 0 where
  pub citation_index : ℕ
  pub chunk_id : String
  pub doc_id : String
  pub title : String
  pub section_title : Option String
  pub page_number : Option ℕ
  pub source : Option String
  pub source_id : Option String
  pub url : Option String
  pub updated_at : Option String
  pub language : Option String
  pub score : S
  pub snippet : Option String

pub record CitationExtraction : Type 0 where
  pub unique_indices : List ℕ
  pub warnings : List String
  pub ignored_indices : List ℕ

-- `i in seen`
unfoldable pub is_in : ℕ → List ℕ → Bool
is_in i [] = false
is_in i (j ∷ js) = if j == i then true else is_in i js

-- The loop that fills `seen` and `unique`: `seen` holds the indices met before, in any order.
unfoldable pub unique_from : List ℕ → List ℕ → List ℕ
unfolding is_in
unique_from seen [] = []
unique_from seen (i ∷ is) =
    if is_in i seen then unique_from seen is else i ∷ unique_from (i ∷ seen) is

-- The list comprehensions with a test.
unfoldable pub keep : (ℕ → Bool) → List ℕ → List ℕ
keep p [] = []
keep p (i ∷ is) = let rest = keep p is in if p i then i ∷ rest else rest

abbrev pub in_range : ℕ → ℕ → Bool
in_range n i = leb 1 i && leb i n

unfoldable pub make_extraction : ℕ → List ℕ → CitationExtraction
unfolding unique_from keep
make_extraction n raw_indices =
    let unique = unique_from [] raw_indices in
    record {
      unique_indices = keep (in_range n) unique;
      warnings = [];
      ignored_indices = keep (λ i. not (in_range n i)) unique;
    }

abbrev pub or_unknown : Option String → String
or_unknown none = "(unknown)"
or_unknown (some t) = t

-- `(cand.text or "")[:200] if cand.text else None`, over the slice of a text
abbrev pub snippet_of : (String → String) → String → Option String
snippet_of slice200 text = if str_eq text "" then none else some (slice200 text)

abbrev pub format_updated : {Time : Type 0} → (Time → String) → Option Time → Option String
format_updated isoformat none = none
format_updated isoformat (some t) = some (isoformat t)

module _ {S Time : Type 0} (isoformat : Time → String) (slice200 : String → String) where
  -- The loop over the candidates; `idx_zero` is the counter of `enumerate`.
  unfoldable pub citations_from :
      Dict String → Dict String → Dict Time → ℕ → List (SearchCandidate S) → List (Citation S)
  citations_from doc_titles doc_urls doc_updated idx_zero [] = []
  citations_from doc_titles doc_urls doc_updated idx_zero (cand ∷ candidates) =
      record {
        citation_index = idx_zero + 1;
        chunk_id = cand.chunk_id;
        doc_id = cand.doc_id;
        title = or_unknown (get cand.doc_id doc_titles);
        section_title = cand.section_title;
        page_number = cand.page_number;
        source = cand.payload.source;
        source_id = cand.payload.source_id;
        url = get cand.doc_id doc_urls;
        updated_at = format_updated isoformat (get cand.doc_id doc_updated);
        language = cand.language;
        score = cand.score;
        snippet = snippet_of slice200 cand.text;
      }
      ∷ citations_from doc_titles doc_urls doc_updated (suc idx_zero) candidates

  unfoldable pub build_citations :
      (ℕ → Option ℕ)
      → List (SearchCandidate S)
      → List ℕ
      → Dict String
      → Dict String
      → Dict Time
      → List (Citation S) × CitationExtraction
  unfolding citations_from make_extraction extract_citation_indices
  build_citations digit candidates answer_text doc_titles doc_urls doc_updated =
      let citations = citations_from doc_titles doc_urls doc_updated 0 candidates in
      (citations, make_extraction (length citations) (extract_citation_indices digit answer_text))
