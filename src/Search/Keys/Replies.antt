-- ===== src/Search/Keys/Replies.antt =====
-- Searches that share a cache entry have one answer, from an engine that reads the subcategories of a
-- filter as a set.
use advanced_search_api.Base.{ℕ, Text, Option, none, some, ◌≡◌, refl, sym, ◌∙◌, ap, List, [], ◌or◌}
use advanced_search_api.Shared.{Result, ok, thrown}
use advanced_search_api.Search.{SearchCriteria, ProductSummary}
use advanced_search_api.Search.Query.Request.{RelevanceConfig, SearchRequest, build_search_request}
use advanced_search_api.Search.Adapter.{
  SearchConfig, SearchResponse, Searched, found, refused, search, search_window, to_outcome,
  with_items, to_product_summaries, resolve_suggestions, resolve_window, total_hits,
}
use advanced_search_api.Search.Completion.{SuggestBlock}
use advanced_search_api.Search.Keys.{NormalCriteria, normalize, build_search_cache_key}
use advanced_search_api.Search.Keys.Sharing.{
  ordered, restored, restored_window, build_search_cache_key-normal,
}

-- An empty query and an absent one suggest alike.
resolve_suggestions_or :
    (config : SearchConfig) (q : Option Text) (total : ℕ) (s : Option SuggestBlock)
    → resolve_suggestions config q total s ≡ resolve_suggestions config (some (q or [])) total s
unfolding resolve_suggestions
resolve_suggestions_or config none total s = refl
resolve_suggestions_or config (some q) total s = refl

module _ (config : SearchConfig) (relevance : RelevanceConfig)
    (client : SearchRequest → Result SearchResponse) where
  -- The order in which the subcategories of a search are named does not matter to the engine.
  abbrev pub OrderBlind : Type 0
  OrderBlind =
      (c : SearchCriteria) (from size : ℕ)
      → client (build_search_request c relevance from size)
        ≡ client (build_search_request (ordered c) relevance from size)

  with_items-restored :
      (c : SearchCriteria) (r : SearchResponse) (items : Searched (List ProductSummary))
      → with_items config relevance c r items
        ≡ with_items config relevance (restored (normalize c)) r items
  unfolding restored normalize
  with_items-restored c r (refused e) = refl
  with_items-restored c r (found items) =
      rw (resolve_suggestions_or config c.query (total_hits r.total) r.suggest)

  to_outcome-restored :
      (c : SearchCriteria) (reply : Result SearchResponse)
      → to_outcome config relevance c reply
        ≡ to_outcome config relevance (restored (normalize c)) reply
  to_outcome-restored c (thrown e) = refl
  to_outcome-restored c (ok r) = with_items-restored c r (to_product_summaries r.hits)

  module _ (blind : OrderBlind) where
    search_window-restored :
        (c : SearchCriteria) (w : Searched (ℕ × ℕ))
        → search_window config relevance client c w
          ≡ search_window config relevance client (restored (normalize c)) w
    search_window-restored c (refused e) = refl
    search_window-restored c (found (from, size)) =
        to_outcome-restored c (client (build_search_request c relevance from size))
        ∙ ap (to_outcome config relevance (restored (normalize c)))
            (blind c from size ∙ ap client (restored_window relevance c from size))

    search-restored :
        (c : SearchCriteria)
        → search config relevance client c ≡ search config relevance client (restored (normalize c))
    unfolding search restored normalize
    search-restored c = search_window-restored c (resolve_window config c.page c.page_size)

    -- One key, one answer.
    pub search_of_key :
        (digest : NormalCriteria → Text) (scope : Text) (c c' : SearchCriteria)
        → (digest (normalize c) ≡ digest (normalize c') → normalize c ≡ normalize c')
        → build_search_cache_key digest c scope ≡ build_search_cache_key digest c' scope
        → search config relevance client c ≡ search config relevance client c'
    search_of_key digest scope c c' apart e =
        search-restored c
        ∙ ap (λ n. search config relevance client (restored n))
            (build_search_cache_key-normal digest c c' scope apart e)
        ∙ sym (search-restored c')
