-- ===== src/Retrieval/Pipeline/Answers.antt =====
-- What a run of the pipeline of backend/app/retrieval/pipeline.py may cite, and what becomes of a
-- cached result.
use know_gate.Prelude.{
  ℕ, ◌+◌, ◌≤◌, ◌<◌, ◌≡◌, refl, String, true, false, not, ◌||◌, Option, none, some, List, [], ◌∷◌,
  map, str_eq, All, arith,
}
use know_gate.Db.{User}
use know_gate.Cache.Helpers.{RoundTrips}
use know_gate.Api.Result.{Result, ok, err, api_error, internal, ◌>>=◌}
use know_gate.Retrieval.CitationBuilder.{Citation}
use know_gate.Retrieval.Search.{is_nil}
use know_gate.Retrieval.NoResult.{NoResultResponse}
use know_gate.Api.Users.{is_some}
use know_gate.Retrieval.Search.Permission.{chunk_shared, point_shared}
use know_gate.Retrieval.Reranker
use know_gate.Retrieval.Reranker.{rerank}
use know_gate.Retrieval.SemanticCache.{cache_set, cache_get-cache_set, cache_ttl_seconds}
use know_gate.Retrieval.Pipeline.{
  Item, object, plain, QueryResult, Services, plain_item, plain_option, no_result_response, to_dict,
  from_cache, citation_responses, response, load_user,
}
use know_gate.Retrieval.Pipeline.Run.{
  State, Call, call_groups, call_language, on_cached, on_user, run,
}

abbrev pub cited : {S : Type 0} → Item (Citation S) → String
cited (object c) = c.chunk_id
cited (plain c) = c.chunk_id

module _ {S : Type 0} (sv : Services S) where
  -- The result cites only what has the property.
  abbrev pub AllCited : (String → Type 0) → QueryResult S → Type 0
  AllCited P r = All (λ i. P (cited i)) r.citations

  -- The run ends in a result that cites only what has the property.
  abbrev pub Returns : (String → Type 0) → Result (QueryResult S) → Type 0
  Returns P answer = (r : QueryResult S) × (answer ≡ ok r) × AllCited P r

  -- The chunks that are shared with one of the groups, by the tables or by the payload of a point.
  abbrev pub Shared : Call sv → List String → String → Type 0
  Shared c groups cid =
      (chunk_shared c.chunks c.db.document_groups groups cid
        || point_shared sv.qdrant.points groups cid)
      ≡ true

  plain_citations :
      (items : List (Item (Citation S)))
      → is_nil items ≡ false
      → citation_responses (map plain_item items) ≡ err (api_error 500 internal)
  unfolding citation_responses
  plain_citations [] h = cc h
  plain_citations (object c ∷ items) h = refl
  plain_citations (plain c ∷ items) h = refl

  -- A result that was cached is no longer made of objects.
  unconvertible :
      (r : Option (Item NoResultResponse)) (items : List (Item (Citation S)))
      → (is_some r || not (is_nil items)) ≡ true
      → let answer : Result (List (Citation S) × Option NoResultResponse) =
          no_result_response (plain_option r) >>= λ no_result.
          citation_responses (map plain_item items) >>= λ citations. ok (citations, no_result) in
        answer ≡ err (api_error 500 internal)
  unfolding ◌>>=◌
  unconvertible none items h = rw (plain_citations items (ground (arith, h))) refl
  unconvertible (some (object r)) items h = refl
  unconvertible (some (plain r)) items h = refl

  -- If the cache holds a result with citations or with a message for the same question, groups and
  -- language, stored within the last day, then a run that does not pass the cache by returns it, and
  -- changes nothing, but the endpoint fails to convert it: the response is an error of status 500.
  pub run-cached :
      (stored : ℕ) (c : Call sv) (w : State sv) (user : User) (r : QueryResult S)
      → str_eq (sv.strip c.query_text) "" ≡ false
      → load_user c.db c.user_id ≡ some user
      → c.bypass_cache ≡ false
      → RoundTrips sv.results (to_dict r)
      → stored ≤ c.now
      → c.now < stored + cache_ttl_seconds
      → (is_some r.no_result || not (is_nil r.citations)) ≡ true
      → let w' : State sv = record w {
        store =
            cache_set sv.redis sv.sha256 sv.normal sv.results stored c.query_text
              (call_groups sv c user)
              (call_language sv c user)
              (to_dict r)
              w.store;
      } in
        (run sv c w' ≡ (ok (from_cache c.query_id (to_dict r)), w'))
        × (response (from_cache c.query_id (to_dict r)) ≡ err (api_error 500 internal))
  unfolding run on_user on_cached response to_dict from_cache
  run-cached stored c w user r text u cached trips le lt some_item = (
    rw
        (
          text,
          u,
          cached,
          cache_get-cache_set sv.redis sv.sha256 sv.normal sv.results stored c.now c.query_text
              (call_groups sv c user) (call_language sv c user) (to_dict r) w.store trips le lt,
        )
        refl,
    unconvertible r.no_result r.citations some_item,
  )
