-- ===== src/Retrieval/Pipeline.antt =====
-- backend/app/retrieval/pipeline.py: `QueryPipeline.run`, the metadata of the citations, the row that
-- is kept of a query, and the response of backend/app/api/v1/query.py. The models, the clock, the
-- detection of the language and the storage are the fields of `Services`.
pub mod Run
pub mod Answers
use know_gate.Prelude.{
  ℕ, ◌+◌, ◌≡◌, refl, String, Bool, true, false, not, ◌&&◌, Option, none, some, List, [], ◌∷◌, ◌++◌,
  map, str_eq, if◌then◌else◌,
}
use know_gate.Prelude.Dict.{Dict, put, has}
use know_gate.Db.{Database, User, Document, is_active}
use know_gate.Db.Table.{find?, select}
use know_gate.Auth.Permissions
use know_gate.Cache.Redis.{Redis}
use know_gate.Cache.Helpers.{Json}
use know_gate.Api.Result.{Result, ok, err, api_error, internal, ◌>>=◌}
use know_gate.Retrieval.Score.{Score}
use know_gate.Retrieval.HybridSearch.{SearchCandidate, truthy, default_rrf_k, default_top_k}
use know_gate.Retrieval.CitationBuilder.{Citation}
use know_gate.Retrieval.Confidence.{Confidence, confidence_from_score}
use know_gate.Retrieval.Search.{Chunk, Qdrant, search, or_other, is_nil}
use know_gate.Retrieval.NoResult.{
  NoResultReason, NoResultResponse, no_results, all_denied, empty_query, build_no_result_message,
}
use know_gate.Retrieval.Reranker.{rerank}
use know_gate.Retrieval.SemanticCache.{cache_get, cache_set, embed_query_cached}
use know_gate.Retrieval.AnswerGenerator.{
  Attempt, done, thrown, GenerationResult, LanguageModel, generate,
}

-- `UserQueryStatus`
pub data UserQueryStatus : Type 0 where
  answered no_result permission_denied failed : UserQueryStatus

-- An object of the program, or the dict with its fields that `asdict` makes of it.
pub data Item (A : Type 0) : Type 0 where
  object plain : A → Item A

pub record QueryResult (S : Type 0) : Type 0 where
  pub query_id : String
  pub answer : List ℕ
  pub citations : List (Item (Citation S))
  pub warnings : List String
  pub no_answer : Bool
  pub no_result : Option (Item NoResultResponse)
  pub latency_ms : ℕ
  pub cache_hit : Bool
  pub llm_model : Option String
  pub cost_usd : S
  pub status : UserQueryStatus

-- The columns of a row of `queries` that are not texts cut to a length; `retrieved_chunks` by its
-- ids.
pub record Query (S : Type 0) : Type 0 where
  pub id : String
  pub user_id : String
  pub query_language : String
  pub retrieved_chunks : List String
  pub answer_text : Option (List ℕ)
  pub confidence : Option Confidence
  pub warnings : List String
  pub status : UserQueryStatus
  pub cost_usd : S
  pub llm_model : Option String

pub record Services (S : Type 0) : Type 1 where
  pub redis : Redis
  pub qdrant : Qdrant S
  pub scores : Score S
  pub results : Json (QueryResult S)
  pub vectors : Json qdrant.Vector
  pub sha256 : String → String
  -- `.strip().lower()` and `.strip()`
  pub normal : String → String
  pub strip : String → String
  pub show : ℕ → String
  -- `none` is "und"
  pub detect_language : String → Option String
  pub embed : String → Option qdrant.Vector
  pub embedding_cache_ttl : ℕ
  pub fits : String → Chunk → Bool
  pub ts_rank : String → Chunk → S
  pub predict : String → List String → List S
  -- Whether the request to Qdrant, and the model of the reranker, raise an exception.
  pub qdrant_raises : Bool
  pub predict_raises : Bool
  pub llm : LanguageModel S
  pub Time : Type 0
  pub isoformat : Time → String
  pub slice200 : String → String
  -- the column `updated_at`
  pub updated_at : Document → Option Time
  -- `get_presigned_url`; `none` is an exception
  pub presigned_url : String → Option String

abbrev pub plain_item : {A : Type 0} → Item A → Item A
plain_item (object a) = plain a
plain_item (plain a) = plain a

abbrev pub plain_option : {A : Type 0} → Option (Item A) → Option (Item A)
plain_option none = none
plain_option (some i) = some (plain_item i)

-- `or None` of an answer
abbrev pub or_none : List ℕ → Option (List ℕ)
or_none [] = none
or_none (c ∷ cs) = some (c ∷ cs)

abbrev pub no_result_response : Option (Item NoResultResponse) → Result (Option NoResultResponse)
no_result_response none = ok none
no_result_response (some (object r)) = ok (some r)
no_result_response (some (plain r)) = err (api_error 500 internal)

module _ {S : Type 0} where
  unfoldable pub to_dict : QueryResult S → QueryResult S
  to_dict r = record r {
    citations = map plain_item r.citations;
    no_result = plain_option r.no_result;
  }

  -- What a hit of the cache makes of the dict that it finds.
  unfoldable pub from_cache : String → QueryResult S → QueryResult S
  from_cache query_id cached = record cached {
    cache_hit = true;
    query_id = or_other (some cached.query_id) query_id;
  }

  -- `[CitationResponse(**c.to_dict()) for c in result.citations]`: a dict has no such method.
  unfoldable pub citation_responses : List (Item (Citation S)) → Result (List (Citation S))
  citation_responses [] = ok []
  citation_responses (plain c ∷ items) = err (api_error 500 internal)
  citation_responses (object c ∷ items) = citation_responses items >>= λ rest. ok (c ∷ rest)

  -- The response of the endpoint, by the two fields that it converts.
  unfoldable pub response : QueryResult S → Result (List (Citation S) × Option NoResultResponse)
  unfolding citation_responses
  response r = no_result_response r.no_result >>= λ no_result.
      citation_responses r.citations >>= λ citations. ok (citations, no_result)

-- `_load_user`
unfoldable pub load_user : Database → String → Option User
load_user db user_id = elim (find? (λ u. str_eq u.id user_id) db.users) [
  | none ↦ none
  | some u ↦ if is_active u.status then some u else none
]

-- The ids of `user.groups`.
unfoldable pub group_ids_of : String → List (String × String) → List String
group_ids_of user_id [] = []
group_ids_of user_id ((u, g) ∷ pairs) =
    let rest = group_ids_of user_id pairs in if str_eq u user_id then g ∷ rest else rest

-- `user_language or user.language_pref or "en"`, and the detection if no language is asked for.
abbrev pub language_of : Option String → User → Option String → String
language_of asked user detected =
    if truthy (or_other asked "")
    then or_other asked ""
    else or_other detected (or_other (some user.language_pref) "en")
