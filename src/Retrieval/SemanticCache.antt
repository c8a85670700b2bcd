-- ===== src/Retrieval/SemanticCache.antt =====
-- backend/app/retrieval/cache.py and query_embedder.py. The hash SHA-256 and `.strip().lower()` are
-- parameters; `sorted` orders texts by their code points.
use Prim.Native.String.{◌++◌, compare}
use Prim.Native.Nat.{Ordering}
use know_gate.Prelude.{
  ℕ, ◌+◌, ◌≤◌, ◌<◌, ◌≡◌, ◌∙◌, String, Bool, true, false, Option, none, some, List, [], ◌∷◌, eq_refl,
  if◌then◌else◌, arith,
}
use know_gate.Prelude.Sort.{sort_desc}
use know_gate.Cache.Redis.{Redis}
use know_gate.Cache.Keys.{query_result_key, query_embed_key}
use know_gate.Cache.Helpers.{Json, RoundTrips, cache_get_json, cache_set_json, get-set_json}

abbrev pub cache_ttl_seconds : ℕ
cache_ttl_seconds = 86400

abbrev pub text_le : String → String → Bool
text_le a b = elim (compare a b) [ Ordering.gt ↦ false | _ ↦ true ]

-- `",".join(texts)`
unfoldable pub join_comma : List String → String
join_comma [] = ""
join_comma (t ∷ []) = t
join_comma (t ∷ u ∷ ts) = t ++ "," ++ join_comma (u ∷ ts)

unfoldable pub cache_key_for_query :
    (String → String) → (String → String) → String → List String → String → String × String
unfolding join_comma
cache_key_for_query sha256 normal query_text group_ids language = (
  sha256 (normal query_text),
  sha256 (join_comma (sort_desc (λ a b. text_le b a) group_ids) ++ "|" ++ language),
)

abbrev pub result_key :
    (String → String) → (String → String) → String → List String → String → String
result_key sha256 normal query_text group_ids language =
    let (q, f) = cache_key_for_query sha256 normal query_text group_ids language in
    query_result_key q f

module _ (redis : Redis) (sha256 normal : String → String) where
  open redis use {Store}

  module _ {V : Type 0} (json : Json V) where
    unfoldable pub cache_get : ℕ → String → List String → String → Store → Option V
    cache_get now query_text group_ids language s =
        cache_get_json redis json now (result_key sha256 normal query_text group_ids language) s

    unfoldable pub cache_set : ℕ → String → List String → String → V → Store → Store
    cache_set now query_text group_ids language result s =
        cache_set_json redis json now (result_key sha256 normal query_text group_ids language)
          result cache_ttl_seconds s

    -- A stored result is read for a day.
    pub cache_get-cache_set :
        (now later : ℕ) (query_text : String) (group_ids : List String) (language : String)
        (result : V) (s : Store)
        → RoundTrips json result
        → now ≤ later
        → later < now + cache_ttl_seconds
        → cache_get later query_text group_ids language
            (cache_set now query_text group_ids language result s)
          ≡ some result
    unfolding cache_get cache_set
    cache_get-cache_set now later query_text group_ids language result s trips le lt =
        let key = result_key sha256 normal query_text group_ids language in
        get-set_json redis json now later key key result cache_ttl_seconds s trips le (omega arith)
        ∙ rw (eq_refl key) (ground (arith, lt))

  -- The vector of the cache, else that of the model, which is stored.
  unfoldable pub embedded :
      {V : Type 0} → Json V → ℕ → ℕ → String → Bool → Store → Option V → Option V → Option V × Store
  embedded json ttl now key use_cache s (some vector) computed = (some vector, s)
  embedded json ttl now key use_cache s none none = (none, s)
  embedded json ttl now key use_cache s none (some vector) =
      (some vector, (if use_cache then cache_set_json redis json now key vector ttl s else s))

  -- `embed` is the model, of which `none` is an exception; it is not called if the cache has the
  -- vector.
  unfoldable pub embed_query_cached :
      {V : Type 0} → Json V → (String → Option V) → ℕ → ℕ → String → Bool → Store → Option V × Store
  unfolding embedded
  embed_query_cached json embed ttl now text use_cache s =
      let key = query_embed_key (sha256 (normal text)) in
      embedded json ttl now key use_cache s
        (if use_cache then cache_get_json redis json now key s else none) (embed text)
