-- ===== src/Retrieval/AnswerGenerator.antt =====
-- `AnswerGenerator.generate` of backend/app/retrieval/answer_generator.py. The client of the LLM with
-- its prompt is one parameter: what comes back for the passages, the question and the language. So
-- are `str.strip`, the test whether a text in lower case has a phrase, and the text of a list of
-- numbers.
pub mod Passages
use Prim.Native.String.{◌++◌ as concat}
use know_gate.Prelude.{
  ℕ, suc, ◌+◌, String, Bool, true, Option, none, some, List, [], ◌∷◌, ◌++◌, if◌then◌else◌, take,
  any, All, All-take, if_cases,
}
use know_gate.Prelude.Dict.{Dict}
use know_gate.Retrieval.HybridSearch.{SearchCandidate}
use know_gate.Retrieval.CitationBuilder.{Citation, build_citations, citations_from}
use know_gate.Retrieval.Search.{is_nil}

-- A result, or the name of the type of an exception.
pub data Attempt (A : Type 0) : Type 0 where
  done : A → Attempt A
  thrown : String → Attempt A

pub record LlmResult (S : Type 0) : Type 0 where
  pub text : List ℕ
  pub model : String
  pub cost_usd : S

-- An entry of `chunks_for_prompt`.
pub record PromptChunk : Type 0 where
  pub citation_index : ℕ
  pub text : String
  pub section_title : Option String
  pub status : String
  pub updated_at : Option String

pub record GenerationResult (S : Type 0) : Type 0 where
  pub answer : List ℕ
  pub citations : List (Citation S)
  pub warnings : List String
  pub llm_model : Option String
  pub cost_usd : S
  pub no_answer : Bool

-- The parameters for one use of the generator.
pub record LanguageModel (S : Type 0) : Type 0 where
  pub complete : List PromptChunk → String → String → Attempt (LlmResult S)
  pub strip : List ℕ → List ℕ
  -- `phrase in text.lower()`
  pub has_phrase : List ℕ → String → Bool
  pub show_indices : List ℕ → String
  pub digit : ℕ → Option ℕ

abbrev pub no_answer_phrases : List String
no_answer_phrases =
    "could not find relevant information" ∷ "không tìm thấy thông tin" ∷ "未找到相关信息" ∷ []

abbrev pub max_citations : ℕ
max_citations = 8

abbrev pub or_active : Option String → String
or_active none = "active"
or_active (some status) = status

abbrev pub with_ignored : (List ℕ → String) → List ℕ → List String → List String
with_ignored show [] warnings = warnings
with_ignored show (i ∷ is) warnings =
    warnings ++ concat "llm_used_invalid_citation_numbers:" (show (i ∷ is)) ∷ []

module _ {S : Type 0} where
  unfoldable pub chunks_for_prompt : ℕ → List (SearchCandidate S) → List PromptChunk
  chunks_for_prompt i [] = []
  chunks_for_prompt i (c ∷ cs) =
      record {
        citation_index = i + 1;
        text = c.text;
        section_title = c.section_title;
        status = or_active c.payload.status;
        updated_at = c.payload.indexed_at;
      }
      ∷ chunks_for_prompt (suc i) cs

  -- What every candidate has, every citation has.
  abbrev pub Cites : (String → Type 0) → Attempt (GenerationResult S) → Type 0
  Cites P (thrown e) = Unit
  Cites P (done g) = All (λ c. P c.chunk_id) g.citations

module _ {S Time : Type 0} (isoformat : Time → String) (slice200 : String → String) where
  -- The steps on the answer of the LLM; `extraction.warnings` is empty.
  unfoldable pub post_process :
      LanguageModel S
      → List (SearchCandidate S)
      → Dict String
      → Dict String
      → Dict Time
      → Attempt (LlmResult S)
      → Attempt (GenerationResult S)
  post_process llm candidates doc_titles doc_urls doc_updated (thrown e) = thrown e
  post_process llm candidates doc_titles doc_urls doc_updated (done r) =
      let answer_text = llm.strip r.text in
      let (citations, extraction) =
        build_citations isoformat slice200 llm.digit (take max_citations candidates) answer_text
          doc_titles doc_urls doc_updated in
      done (record {
        answer = answer_text;
        citations = citations;
        warnings = with_ignored llm.show_indices extraction.ignored_indices extraction.warnings;
        llm_model = some r.model;
        cost_usd = r.cost_usd;
        no_answer = any (llm.has_phrase answer_text) no_answer_phrases;
      })

  unfoldable pub generate :
      S
      → LanguageModel S
      → String
      → String
      → List (SearchCandidate S)
      → Dict String
      → Dict String
      → Dict Time
      → Attempt (GenerationResult S)
  unfolding chunks_for_prompt post_process
  generate no_cost llm query language candidates doc_titles doc_urls doc_updated =
      if is_nil candidates
      then done (record {
        answer = [];
        citations = [];
        warnings = "no_candidates" ∷ [];
        llm_model = none;
        cost_usd = no_cost;
        no_answer = true;
      })
      else post_process llm candidates doc_titles doc_urls doc_updated
          (llm.complete (chunks_for_prompt 0 (take max_citations candidates)) query language)

  module _ (P : String → Type 0) where
    citations_from-All :
        (titles urls : Dict String) (updated : Dict Time) (i : ℕ) (cs : List (SearchCandidate S))
        → All (λ c. P c.chunk_id) cs
        → All (λ c. P c.chunk_id) (citations_from isoformat slice200 titles urls updated i cs)
    unfolding citations_from
    citations_from-All titles urls updated i [] h = tt
    citations_from-All titles urls updated i (c ∷ cs) h =
        (h.0, citations_from-All titles urls updated (suc i) cs h.1)

    post_process-Cites :
        (llm : LanguageModel S) (cs : List (SearchCandidate S)) (titles urls : Dict String)
        (updated : Dict Time) (r : Attempt (LlmResult S))
        → All (λ c. P c.chunk_id) cs
        → Cites P (post_process llm cs titles urls updated r)
    unfolding post_process build_citations
    post_process-Cites llm cs titles urls updated (thrown e) h = tt
    post_process-Cites llm cs titles urls updated (done r) h =
        citations_from-All titles urls updated 0 (take max_citations cs)
          (All-take (λ c. P c.chunk_id) max_citations cs h)

    pub generate-Cites :
        (no_cost : S) (llm : LanguageModel S) (query language : String)
        (cs : List (SearchCandidate S)) (titles urls : Dict String) (updated : Dict Time)
        → All (λ c. P c.chunk_id) cs
        → Cites P (generate no_cost llm query language cs titles urls updated)
    unfolding generate
    generate-Cites no_cost llm query language cs titles urls updated h =
        if_cases (Cites P) (is_nil cs) (λ _. tt)
          (λ _. post_process-Cites llm cs titles urls updated _ h)
