-- ===== src/Tests/Queries.antt =====
-- Runs of the query pipeline of backend/app/retrieval/pipeline.py.
use know_gate.Prelude.{
  ℕ, ◌≡◌, refl, true, false, none, some, [], ◌∷◌, map, length-take, take, All-take, arith,
}
use know_gate.Db.Table.{find?, select}
use know_gate.Api.Result.{ok, err, api_error, internal}
use know_gate.Retrieval.Search.{Chunk, Point, Qdrant}
use know_gate.Retrieval.SemanticCache.{cache_set}
use know_gate.Retrieval.NoResult.{no_results}
use know_gate.Retrieval.AnswerGenerator.{LanguageModel, done}
use know_gate.Retrieval.Pipeline.{
  Services, QueryResult, object, no_result, load_user, to_dict, from_cache, response,
}
use know_gate.Retrieval.Pipeline.Run.{State, Call, run, call_groups, call_language}
use know_gate.Retrieval.Pipeline.Answers.{run-cached}
use know_gate.Tests.Stores.{memory, no_entries}
use know_gate.Tests.Api.{tables, ben}
use know_gate.Tests.Retrieval.{millionths}

abbrev point : Point ℕ
point = record {
  id = "p1";
  score = 9;
  chunk_id = some "c1";
  doc_id = some "d1";
  group_ids = "g1" ∷ [];
  section_title = none;
  page_number = none;
  language = none;
  payload = record { source = none; source_id = none; status = some "active"; indexed_at = none };
}

-- Points in the order of the collection.
abbrev collection : Qdrant ℕ
collection = record {
  Vector = Unit;
  points = point ∷ [];
  query_points = λ v f limit. take limit (select f (point ∷ []));
  query_points-All = λ P v f limit h. All-take P limit (select f (point ∷ [])) h;
  length-query_points = λ v f limit. omega (arith, length-take limit (select f (point ∷ [])));
}

abbrev cached_result : QueryResult ℕ
cached_result = record {
  query_id = "q0";
  answer = [];
  citations = [];
  warnings = "no_candidates" ∷ [];
  no_answer = true;
  no_result = some (
      object
        (record { reason = no_results; message = "nothing"; suggestions = []; denied_count = 0 }));
  latency_ms = 7;
  cache_hit = false;
  llm_model = none;
  cost_usd = 0;
  status = no_result;
}

abbrev answering : LanguageModel ℕ
answering = record {
  complete = λ chunks question language. done (record { text = []; model = "m"; cost_usd = 1 });
  strip = λ text. text;
  has_phrase = λ text phrase. false;
  show_indices = λ is. "";
  digit = λ c. none;
}

abbrev services : Services ℕ
services = record {
  redis = memory;
  qdrant = collection;
  scores = millionths;
  results = record { dumps = λ r. "result"; loads = λ s. some (to_dict cached_result) };
  vectors = record { dumps = λ v. "vector"; loads = λ s. some tt };
  sha256 = λ s. s;
  normal = λ s. s;
  strip = λ s. s;
  show = λ n. "0";
  detect_language = λ s. none;
  embed = λ s. some tt;
  embedding_cache_ttl = 300;
  fits = λ q c. true;
  ts_rank = λ q c. 1;
  predict = λ q ps. map (λ p. 1) ps;
  qdrant_raises = false;
  predict_raises = false;
  llm = answering;
  Time = ℕ;
  isoformat = λ t. "";
  slice200 = λ s. s;
  updated_at = λ d. none;
  presigned_url = λ key. none;
}

abbrev handbook_chunk : Chunk
handbook_chunk = record {
  id = "c2";
  document_id = "d1";
  section_title = none;
  chunk_text = "welcome";
  page_number = none;
  language = none;
}

abbrev asks : Call services
asks = record {
  now = 100;
  latency_ms = 12;
  query_id = "q1";
  user_id = "u2";
  query_text = "where?";
  user_language = none;
  bypass_cache = false;
  db = tables;
  chunks = handbook_chunk ∷ [];
  high_score = 50_000;
  medium_score = 20_000;
}

abbrev quiet : State services
quiet = record { store = no_entries; queries = [] }

ben_loaded : load_user tables "u2" ≡ some ben
unfolding load_user find?
ben_loaded = refl

run-cached_example :
    let w' : State services = record quiet {
      store =
          cache_set services.redis services.sha256 services.normal services.results 50 "where?"
            (call_groups services asks ben)
            (call_language services asks ben)
            (to_dict cached_result)
            no_entries;
    } in
    (run services asks w' ≡ (ok (from_cache "q1" (to_dict cached_result)), w'))
    × (response (from_cache "q1" (to_dict cached_result)) ≡ err (api_error 500 internal))
run-cached_example =
    run-cached services 50 asks quiet ben cached_result refl ben_loaded refl refl (omega arith)
      (omega arith) refl
