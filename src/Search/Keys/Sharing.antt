-- ===== src/Search/Keys/Sharing.antt =====
-- Which searches share a cache entry.
use advanced_search_api.Base.{
  ℕ, ◌-◌, ◌*◌, Text, str, Option, none, some, ◌≡◌, refl, sym, ◌∙◌, ap, List, [], ◌∷◌, ◌++◌, ◌or◌,
}
use mathlib.Core.List.{Perm}
use advanced_search_api.Base.Sorting.{sort_texts, sort_texts-perm}
use advanced_search_api.Search.{SearchCriteria}
use advanced_search_api.Search.Query.{
  FacetDimension, category, subcategories, location, price, term_clause, build_filter_clauses,
  build_facet_aggregations, terms_facet, price_facet,
}
use advanced_search_api.Search.Query.Request.{
  RelevanceConfig, build_text_query, build_search_request, SearchRequest, inner_query, suggest_of,
}
use advanced_search_api.Search.Keys.{NormalCriteria, normalize, build_search_cache_key}

pub append_cancel : (s t u : Text) → s ++ t ≡ s ++ u → t ≡ u
append_cancel [] t u e = e
append_cancel (c ∷ s) t u e = append_cancel s t u cc

-- The order in which subcategories are named does not matter, so such searches share an entry.
pub build_search_cache_key-Perm :
    (digest : NormalCriteria → Text) (c : SearchCriteria) (scope : Text) (ts us : List Text)
    → Perm ts us
    → build_search_cache_key digest
        (record c { filters = record c.filters { subcategories = some ts } })
        scope
      ≡ build_search_cache_key digest
          (record c { filters = record c.filters { subcategories = some us } })
          scope
unfolding build_search_cache_key normalize
build_search_cache_key-Perm digest c scope ts us p = rw (sort_texts-perm p)

-- A search with its subcategories in order, and the search that a normal form stands for.
unfoldable pub ordered : SearchCriteria → SearchCriteria
ordered c = record c {
  filters = record c.filters { subcategories = some (sort_texts (c.filters.subcategories or [])) };
}

unfoldable pub restored : NormalCriteria → SearchCriteria
restored n = record {
  query = some n.q;
  filters = record {
    category = some n.category;
    subcategories = some n.subcategories;
    location = some n.location;
    min_price = n.min_price;
    max_price = n.max_price;
  };
  sort = n.sort;
  order = n.order;
  page = n.page;
  page_size = n.page_size;
}

-- The request for the page of a search.
unfoldable pub page_request : RelevanceConfig → SearchCriteria → SearchRequest
page_request config c = build_search_request c config ((c.page - 1) * c.page_size) c.page_size

term_clause_or :
    (d : FacetDimension) (o : Option Text) → term_clause d o ≡ term_clause d (some (o or []))
term_clause_or d none = refl
term_clause_or d (some t) = refl

inner_query_or : (o : Option Text) → inner_query o ≡ inner_query (some (o or []))
inner_query_or none = refl
inner_query_or (some t) = refl

suggest_of_or : (o : Option Text) → suggest_of o ≡ suggest_of (some (o or []))
suggest_of_or none = refl
suggest_of_or (some t) = refl

restored_clauses :
    (c : SearchCriteria) (e : Option FacetDimension)
    → build_filter_clauses (ordered c).filters e
      ≡ build_filter_clauses (restored (normalize c)).filters e
unfolding build_filter_clauses ordered restored normalize
restored_clauses c e =
    rw (term_clause_or category c.filters.category, term_clause_or location c.filters.location)

-- The same at any window of the results.
pub restored_window :
    (config : RelevanceConfig) (c : SearchCriteria) (from size : ℕ)
    → build_search_request (ordered c) config from size
      ≡ build_search_request (restored (normalize c)) config from size
unfolding build_search_request build_facet_aggregations terms_facet price_facet build_text_query
    ordered restored normalize
restored_window config c from size = rw (
  restored_clauses c none,
  restored_clauses c (some category),
  restored_clauses c (some subcategories),
  restored_clauses c (some location),
  restored_clauses c (some price),
  inner_query_or c.query,
  suggest_of_or c.query,
)

restored_request :
    (config : RelevanceConfig) (c : SearchCriteria)
    → page_request config (ordered c) ≡ page_request config (restored (normalize c))
unfolding page_request ordered restored normalize
restored_request config c = restored_window config c ((c.page - 1) * c.page_size) c.page_size

-- A key determines the normal form, if the digest does.
pub build_search_cache_key-normal :
    (digest : NormalCriteria → Text) (c c' : SearchCriteria) (scope : Text)
    → (digest (normalize c) ≡ digest (normalize c') → normalize c ≡ normalize c')
    → build_search_cache_key digest c scope ≡ build_search_cache_key digest c' scope
    → normalize c ≡ normalize c'
unfolding build_search_cache_key
build_search_cache_key-normal digest c c' scope apart e =
    let tail = append_cancel scope _ _ (append_cancel (str "search:v1:") _ _ e) in
    apart (append_cancel (str ":") _ _ tail)

-- Two searches with one cache key ask Elasticsearch for the same, but for the order in which they name
-- their subcategories, provided the digest does not collide on the two.
pub build_search_cache_key_sound :
    (digest : NormalCriteria → Text) (config : RelevanceConfig) (c c' : SearchCriteria)
    (scope : Text)
    → (digest (normalize c) ≡ digest (normalize c') → normalize c ≡ normalize c')
    → build_search_cache_key digest c scope ≡ build_search_cache_key digest c' scope
    → page_request config (ordered c) ≡ page_request config (ordered c')
build_search_cache_key_sound digest config c c' scope apart e =
    restored_request config c
    ∙ ap (λ n. page_request config (restored n))
        (build_search_cache_key-normal digest c c' scope apart e)
    ∙ sym (restored_request config c')
