-- ===== src/Retrieval/Pipeline/Run.antt =====
-- `QueryPipeline.run` of backend/app/retrieval/pipeline.py: each branch with the row that it keeps and
-- what it stores. A row is kept whatever comes after it; an exception that is not caught is the
-- status 500. `latency_ms` is what the clock gives.
use Prim.Native.String.{◌++◌ as concat}
use know_gate.Prelude.{
  ◌&&◌, ℕ, String, Bool, true, false, not, Option, none, some, List, [], ◌∷◌, ◌++◌, map, str_eq,
  if◌then◌else◌,
}
use know_gate.Prelude.Dict.{Dict, put, has}
use know_gate.Db.{Database, User, Document}
use know_gate.Db.Table.{select}
use know_gate.Api.Result.{Result, ok, err, api_error, internal}
use know_gate.Retrieval.HybridSearch.{SearchCandidate, truthy, default_rrf_k, default_top_k}
use know_gate.Retrieval.Confidence.{Confidence, confidence_from_score}
use know_gate.Retrieval.Search.{Chunk, search, is_nil, or_other}
use know_gate.Retrieval.NoResult.{
  NoResultResponse, no_results, all_denied, empty_query, build_no_result_message,
}
use know_gate.Retrieval.Reranker
use know_gate.Retrieval.Reranker.{rerank}
use know_gate.Retrieval.SemanticCache.{cache_get, cache_set, embed_query_cached}
use know_gate.Retrieval.AnswerGenerator.{Attempt, done, thrown, GenerationResult, generate}
use know_gate.Retrieval.Pipeline.{
  UserQueryStatus, answered, no_result, permission_denied, failed, Item, object, QueryResult, Query,
  Services, or_none, to_dict, from_cache, load_user, group_ids_of, language_of,
}

module _ {S : Type 0} (sv : Services S) where
  abbrev Store : Type 0
  Store = sv.redis.Store

  -- What a run changes: the store of Redis, and the table `queries`.
  pub record State : Type 0 where
    pub store : sv.redis.Store
    pub queries : List (Query S)

  -- A call of `run` with what it reads.
  pub record Call : Type 0 where
    pub now : ℕ
    pub latency_ms : ℕ
    pub query_id : String
    pub user_id : String
    pub query_text : String
    pub user_language : Option String
    pub bypass_cache : Bool
    pub db : Database
    pub chunks : List Chunk
    pub high_score : S
    pub medium_score : S

  -- A result without an answer.
  abbrev pub empty_result :
      Call → List String → UserQueryStatus → Option (Item NoResultResponse) → QueryResult S
  empty_result c warnings status message = record {
    query_id = c.query_id;
    answer = [];
    citations = [];
    warnings = warnings;
    no_answer = true;
    no_result = message;
    latency_ms = c.latency_ms;
    cache_hit = false;
    llm_model = none;
    cost_usd = sv.scores.zero_score;
    status = status;
  }

  -- `_log_query`, of which a failure is caught.
  abbrev pub log_query :
      Call
      → String
      → List String
      → Option (List ℕ)
      → Option Confidence
      → List String
      → UserQueryStatus
      → S
      → Option String
      → State
      → State
  log_query c language retrieved answer_text confidence warnings status cost_usd llm_model w =
      record w {
        queries =
            w.queries
            ++ record {
              id = c.query_id;
              user_id = c.user_id;
              query_language = language;
              retrieved_chunks = retrieved;
              answer_text = answer_text;
              confidence = confidence;
              warnings = warnings;
              status = status;
              cost_usd = cost_usd;
              llm_model = llm_model;
            }
              ∷ [];
      }

  abbrev pub remember : Call → List String → String → QueryResult S → State → State
  remember c groups language r w = record w {
    store =
        cache_set sv.redis sv.sha256 sv.normal sv.results c.now c.query_text groups language
          (to_dict r) w.store;
  }

  -- `_resolve_doc_metadata`, over the documents that the candidates name; the first exception of the
  -- storage ends the loop for the links.
  unfoldable pub titles_of : List Document → Dict String → Dict String
  titles_of [] d = d
  titles_of (doc ∷ docs) d = titles_of docs (put doc.id doc.title d)

  abbrev pub put_time : String → Option sv.Time → Dict sv.Time → Dict sv.Time
  put_time id none d = d
  put_time id (some t) d = put id t d

  unfoldable pub updated_of : List Document → Dict sv.Time → Dict sv.Time
  updated_of [] d = d
  updated_of (doc ∷ docs) d = updated_of docs (put_time doc.id (sv.updated_at doc) d)

  abbrev pub signed : Option String → Option (Option String)
  signed none = none
  signed (some url) = some (some url)

  abbrev pub link : Option String → Option (Option String)
  link none = some none
  link (some key) = if str_eq key "" then some none else signed (sv.presigned_url key)

  abbrev pub put_link :
      String → Option (Option String) → Dict String → (Dict String → Dict String) → Dict String
  put_link id none d rest = d
  put_link id (some none) d rest = rest d
  put_link id (some (some url)) d rest = rest (put id url d)

  unfoldable pub urls_of : List Document → Dict String → Dict String
  urls_of [] d = d
  urls_of (doc ∷ docs) d = put_link doc.id (link doc.object_key) d (urls_of docs)

  abbrev pub named_documents : Call → List (SearchCandidate S) → List Document
  named_documents c candidates =
      select (λ doc. has doc.id (select truthy (map (λ cand. cand.doc_id) candidates)))
        c.db.documents

  abbrev pub top_score : List (SearchCandidate S) → S
  top_score [] = sv.scores.zero_score
  top_score (c ∷ cs) = c.score

  -- What follows on the answer of the generator.
  unfoldable pub on_generated :
      Call
      → List String
      → String
      → List (SearchCandidate S)
      → State
      → Attempt (GenerationResult S)
      → QueryResult S × State
  on_generated c groups language top w (thrown e) =
      let warnings = concat "llm_failed:" e ∷ [] in
      (
        empty_result c warnings failed none,
        log_query c language (map (λ cand. cand.chunk_id) top) none none warnings failed
            sv.scores.zero_score none w,
      )
  on_generated c groups language top w (done gen) =
      let status = if gen.no_answer then no_result else answered in
      let result : QueryResult S = record {
        query_id = c.query_id;
        answer = gen.answer;
        citations = map object gen.citations;
        warnings = gen.warnings;
        no_answer = gen.no_answer;
        no_result = none;
        latency_ms = c.latency_ms;
        cache_hit = false;
        llm_model = gen.llm_model;
        cost_usd = gen.cost_usd;
        status = status;
      } in
      (
        result,
        remember c groups language result (
            log_query c language (map (λ cand. cand.chunk_id) top) (or_none gen.answer)
              (some (confidence_from_score sv.scores c.high_score c.medium_score (top_score top)))
              gen.warnings status gen.cost_usd gen.llm_model w),
      )

  abbrev pub reranked : Call → List (SearchCandidate S) → List (SearchCandidate S)
  reranked c candidates =
      map (λ r. r.candidate)
        (rerank sv.scores sv.strip sv.predict Reranker.default_top_k c.query_text candidates)

  unfoldable pub on_candidates :
      Call → List String → String → State → List (SearchCandidate S) → QueryResult S × State
  unfolding on_generated titles_of updated_of urls_of
  on_candidates c groups language w [] =
      let reason = if is_nil groups then all_denied else no_results in
      let result =
        empty_result c ("no_candidates" ∷ []) no_result
          (some (object (build_no_result_message sv.show reason language 0 []))) in
      (
        result,
        remember c groups language result (
            log_query c language [] none none ("no_candidates" ∷ []) no_result sv.scores.zero_score
              none w),
      )
  on_candidates c groups language w (cand ∷ cands) =
      let top = reranked c (cand ∷ cands) in
      let docs = named_documents c top in
      on_generated c groups language top w (
        generate sv.isoformat sv.slice200 sv.scores.zero_score sv.llm c.query_text language top
          (titles_of docs []) (urls_of docs []) (updated_of docs []))

  unfoldable pub on_searched :
      Call
      → List String
      → String
      → State
      → Option (List (SearchCandidate S))
      → Result (QueryResult S) × State
  unfolding on_candidates
  on_searched c groups language w none = (err (api_error 500 internal), w)
  on_searched c groups language w (some candidates) =
      if sv.predict_raises && not (is_nil candidates)
      then (err (api_error 500 internal), w)
      else let (result, w') = on_candidates c groups language w candidates in (ok result, w')

  -- The search and what follows; neither a missing key in the merge nor an exception of Qdrant is
  -- caught. Without groups Qdrant is not asked.
  unfoldable pub on_vector :
      Call → List String → String → State → Option sv.qdrant.Vector → Result (QueryResult S) × State
  unfolding on_searched
  on_vector c groups language w none = (ok (empty_result c ("embed_failed" ∷ []) failed none), w)
  on_vector c groups language w (some vector) =
      if sv.qdrant_raises && not (is_nil groups)
      then (err (api_error 500 internal), w)
      else on_searched c groups language w (
          search sv.scores sv.qdrant default_rrf_k default_top_k (sv.fits c.query_text)
            (sv.ts_rank c.query_text) c.chunks c.db.document_groups vector groups)

  unfoldable pub on_cached :
      Call → List String → String → State → Option (QueryResult S) → Result (QueryResult S) × State
  unfolding on_vector
  on_cached c groups language w (some cached) = (ok (from_cache c.query_id cached), w)
  on_cached c groups language w none =
      let (vector, s) =
        embed_query_cached sv.redis sv.sha256 sv.normal sv.vectors sv.embed sv.embedding_cache_ttl
          c.now c.query_text (not c.bypass_cache) w.store in
      on_vector c groups language (record w { store = s }) vector

  abbrev pub call_language : Call → User → String
  call_language c user = language_of c.user_language user (sv.detect_language c.query_text)

  abbrev pub call_groups : Call → User → List String
  call_groups c user = group_ids_of user.id c.db.user_groups

  unfoldable pub on_user : Call → State → Option User → Result (QueryResult S) × State
  unfolding on_cached
  on_user c w none = (ok (empty_result c [] permission_denied none), w)
  on_user c w (some user) =
      let groups = call_groups c user in
      let language = call_language c user in
      on_cached c groups language w (
        if c.bypass_cache
        then none
        else cache_get sv.redis sv.sha256 sv.normal sv.results c.now c.query_text groups language
            w.store)

  unfoldable pub run : Call → State → Result (QueryResult S) × State
  unfolding on_user
  run c w =
      if str_eq (sv.strip c.query_text) ""
      then (
        ok (
            empty_result c [] no_result (
              some (
                object (
                  build_no_result_message sv.show empty_query (or_other c.user_language "en") 0
                    [])))),
        w,
      )
      else on_user c w (load_user c.db c.user_id)
