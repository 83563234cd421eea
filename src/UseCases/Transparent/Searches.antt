-- ===== src/UseCases/Transparent/Searches.antt =====
-- Searching through the cache, over the search adapter.
use advanced_search_api.Base.{Text, some, ◌≡◌, refl, sym, ap, subst, List, [], ◌∷◌, All}
use advanced_search_api.Json.{Json}
use advanced_search_api.Shared.{Result, ok, Ended, returned}
use advanced_search_api.Search.{SearchCriteria, SearchOutcome, ProductSummary}
use advanced_search_api.Search.Query.Request.{RelevanceConfig, SearchRequest}
use advanced_search_api.Search.Adapter.{
  SearchConfig, SearchResponse, SearchFailure, Hit, Searched, found, refused, search,
}
use advanced_search_api.Search.Adapter.Window.{Shows, search-Answers}
use advanced_search_api.Search.Keys.{NormalCriteria, normalize, build_search_cache_key}
use advanced_search_api.Search.Keys.Replies.{OrderBlind, search_of_key}
use advanced_search_api.UseCases.{
  CachedUseCase, as_json, ended_of, accepted, schema_of, search_execute,
}
use advanced_search_api.UseCases.Payload.{Zod, search_outcome_schema}
use advanced_search_api.UseCases.Payload.Values.{outcome_json, IsFiniteScore}
use advanced_search_api.UseCases.Payload.Accepted.{search_outcome_schema_accepts}
use advanced_search_api.UseCases.Transparent.{
  Step, answers_of, uncached, IsRun, answers_of-uncached,
}

-- The scores that Elasticsearch sends are finite.
abbrev pub HasFiniteScores : (SearchRequest → Result SearchResponse) → Type 0
HasFiniteScores client =
    (r : SearchRequest) (reply : SearchResponse)
    → client r ≡ ok reply
    → All (λ (h : Hit). IsFiniteScore h.score) reply.hits

Shows-finite :
    (hits : List Hit) (items : List ProductSummary)
    → Shows hits items
    → All (λ (h : Hit). IsFiniteScore h.score) hits
    → All (λ (s : ProductSummary). IsFiniteScore s.score) items
Shows-finite [] [] shows finite = tt
Shows-finite [] (_ ∷ _) shows finite = absurd shows
Shows-finite (_ ∷ _) [] shows finite = absurd shows
Shows-finite (h ∷ hs) (s ∷ ss) ((d, _, same), shows) (f, finite) = (
  subst IsFiniteScore (sym (ap (λ (x : ProductSummary). x.score) same)) f,
  Shows-finite hs ss shows finite,
)

module _ (z : Zod) (parse : Text → Result Json) (stringify : Json → Text)
    (digest : NormalCriteria → Text) (config : SearchConfig) (relevance : RelevanceConfig)
    (client : SearchRequest → Result SearchResponse) (use_case : CachedUseCase) where
  -- The answer of the adapter alone.
  abbrev pub search_json : SearchCriteria → Ended SearchFailure Json
  search_json c = as_json outcome_json (ended_of (search config relevance client c))

  abbrev pub key_of : SearchCriteria → Text
  key_of c = build_search_cache_key digest c use_case.cache_scope

  kept_value :
      (finite : HasFiniteScores client) (c : SearchCriteria) (v w : Json)
      (r : Searched SearchOutcome)
      → search config relevance client c ≡ r
      → as_json outcome_json (ended_of r) ≡ returned v
      → schema_of z (search_outcome_schema z) v ≡ some w
      → w ≡ v
  kept_value finite c v w (refused e) found_it is_v passed = absurd (cc)
  kept_value finite c v w (found o) found_it is_v passed =
      let (reply, asked, (shows, _, _)) = search-Answers config relevance client c o found_it in
      let scores = Shows-finite reply.hits o.items shows (finite _ reply asked) in
      let taken = search_outcome_schema_accepts z o scores in
      let is_o : outcome_json o ≡ v = cc in
      let same =
        subst (λ x. schema_of z (search_outcome_schema z) x ≡ some x) is_o (ap accepted taken) in
      cc

  -- In any run of searches through the cache, from an empty cache on, whatever reads and writes fail,
  -- whichever entries are lost and whichever loads of the same key are joined, each search is answered
  -- as Elasticsearch answers it without a cache. The engine is taken to read subcategories as a set and
  -- to send finite scores; on the searches of the run, answers survive being written as JSON, and
  -- the digest of the cache key does not collide.
  pub search_execute_transparent :
      (Within : SearchCriteria → Type 0)
      → ((c : SearchCriteria) (v : Json)
          → Within c
          → search_json c ≡ returned v
          → parse (stringify v) ≡ ok v)
      → OrderBlind config relevance client
      → HasFiniteScores client
      → ((c c' : SearchCriteria)
          → Within c
          → Within c'
          → digest (normalize c) ≡ digest (normalize c')
          → normalize c ≡ normalize c')
      → (steps : List (Step SearchCriteria)) → IsRun Within key_of steps
      → answers_of
          (search_execute z parse stringify digest (search config relevance client) use_case)
          steps
          []
        ≡ uncached search_json steps
  unfolding search_execute
  search_execute_transparent Within faithful blind finite apart steps run_is =
      answers_of-uncached parse stringify (schema_of z (search_outcome_schema z))
        use_case.ttl_seconds key_of outcome_json (λ c. ended_of (search config relevance client c))
        Within
        (λ c c' w w' e. ap ended_of (
          search_of_key config relevance client blind digest use_case.cache_scope c c'
            (apart c c' w w') e))
        faithful (λ c v w is_v passed. kept_value finite c v w _ refl is_v passed) steps run_is
