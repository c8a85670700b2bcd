-- ===== src/Retrieval/HybridSearch.antt =====
-- backend/app/retrieval/hybrid_search.py: `SearchCandidate` and `merge_rrf`, over any type of
-- scores. The two dicts of `merge_rrf` are kept apart, as in the source; a read of a missing key is
-- `none`. A text is falsy if it is empty, a page number if it is 0. Of the raw Qdrant payload the
-- fields that backend/app reads are kept.
pub mod Merge
pub mod Order
pub mod Ranking
pub mod Bounds
use know_gate.Prelude.{
  ℕ, zero, suc, ◌+◌, String, Bool, true, false, not, ◌&&◌, Option, none, some, List, [], ◌∷◌,
  str_eq, if◌then◌else◌, take, ◌==◌,
}
use know_gate.Prelude.Dict.{Dict, get, put}
use know_gate.Prelude.Do.{◌>>=◌}
use know_gate.Prelude.Sort.{sort_desc}
use know_gate.Retrieval.Score.{Score}

pub record Payload : Type 0 where
  pub source : Option String
  pub source_id : Option String
  pub status : Option String
  pub indexed_at : Option String

-- The values of `retrieval_source`.
pub data RetrievalSource : Type 0 where
  unset vector keyword both : RetrievalSource

pub record SearchCandidate (S : Type 0) : Type 0 where
  pub chunk_id : String
  pub doc_id : String
  pub text : String
  pub score : S
  pub retrieval_source : RetrievalSource
  pub payload : Payload
  pub section_title : Option String
  pub page_number : Option ℕ
  pub language : Option String

abbrev pub default_rrf_k : ℕ
default_rrf_k = 60

abbrev pub default_top_k : ℕ
default_top_k = 20

-- `bool(s)` of a text, of an optional text and of an optional page number
abbrev pub truthy : String → Bool
truthy s = not (str_eq s "")

abbrev pub truthy_text : Option String → Bool
truthy_text none = false
truthy_text (some s) = truthy s

abbrev pub truthy_page : Option ℕ → Bool
truthy_page none = false
truthy_page (some n) = not (n == 0)

abbrev pub is_some {ℓ} : {A : Type ℓ} → Option A → Bool
is_some none = false
is_some (some a) = true

module _ {S : Type 0} (A : Score S) where
  -- `if cid in candidates: ...`: what the second and later finds of a chunk change.
  unfoldable pub merge_found : SearchCandidate S → SearchCandidate S → SearchCandidate S
  merge_found existing cand = record existing {
    retrieval_source = both;
    text = if not (truthy existing.text) && truthy cand.text then cand.text else existing.text;
    section_title =
        if not (truthy_text existing.section_title) && truthy_text cand.section_title
        then cand.section_title
        else existing.section_title;
    page_number =
        if not (truthy_page existing.page_number) && is_some cand.page_number
        then cand.page_number
        else existing.page_number;
    language =
        if not (truthy_text existing.language) && truthy_text cand.language
        then cand.language
        else existing.language;
  }

  -- `else: candidates[cid] = SearchCandidate(...)`
  unfoldable pub first_found : SearchCandidate S → RetrievalSource → SearchCandidate S
  first_found cand source = record cand { score = A.zero_score; retrieval_source = source }

  abbrev pub or_zero : Option S → S
  or_zero none = A.zero_score
  or_zero (some s) = s

  -- The dicts `scores` and `candidates`.
  pub record Fusion : Type 0 where
    pub scores : Dict S
    pub candidates : Dict (SearchCandidate S)

  abbrev pub found :
      Option (SearchCandidate S) → SearchCandidate S → RetrievalSource → SearchCandidate S
  found (some existing) cand source = merge_found existing cand
  found none cand source = first_found cand source

  -- One round of the loop of `_accumulate`.
  unfoldable pub accumulate_one : ℕ → RetrievalSource → ℕ → SearchCandidate S → Fusion → Fusion
  accumulate_one k source rank_zero cand f =
      let cid = cand.chunk_id in
      record {
        scores =
            put cid (A.add (or_zero (get cid f.scores)) (A.recip (k + rank_zero + 1))) f.scores;
        candidates = put cid (found (get cid f.candidates) cand source) f.candidates;
      }

  unfoldable pub accumulate : ℕ → RetrievalSource → ℕ → List (SearchCandidate S) → Fusion → Fusion
  unfolding accumulate_one
  accumulate k source rank_zero [] f = f
  accumulate k source rank_zero (cand ∷ results) f =
      accumulate k source (suc rank_zero) results (accumulate_one k source rank_zero cand f)

  abbrev pub no_results : Fusion
  no_results = record { scores = []; candidates = [] }

  -- `for cid, sc in scores.items()`
  unfoldable pub collect : Dict S → Dict (SearchCandidate S) → Option (List (SearchCandidate S))
  collect [] candidates = some []
  collect ((cid, sc) ∷ scores) candidates = do
    cand ← get cid candidates
    rest ← collect scores candidates
    some (record cand { score = sc } ∷ rest)

  abbrev pub le_score : SearchCandidate S → SearchCandidate S → Bool
  le_score c d = A.le c.score d.score

  unfoldable pub merge_rrf :
      ℕ
      → ℕ
      → List (SearchCandidate S)
      → List (SearchCandidate S)
      → Option (List (SearchCandidate S))
  unfolding accumulate collect
  merge_rrf k top_k vec_results kw_results =
      let f = accumulate k keyword 0 kw_results (accumulate k vector 0 vec_results no_results) in
      do merged ← collect f.scores f.candidates; some (take top_k (sort_desc le_score merged))
