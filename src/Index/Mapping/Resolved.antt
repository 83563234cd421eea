-- ===== src/Index/Mapping/Resolved.antt =====
-- Every field that a search names is mapped, with a type that serves.
use advanced_search_api.Base.{
  ℕ, Text, Option, none, some, refl, List, [], ◌∷◌, ◌++◌, map, any, text_eq, All, All-append,
}
use advanced_search_api.Search.{
  SearchCriteria, SearchFilters, SortField, relevance, popularity, created_at, SortOrder,
}
use advanced_search_api.Search.Query.{
  FacetDimension, category, subcategories, location, price, Clause, term, terms, price_range,
  FacetAggregations, terms_facet, price_facet, build_facet_aggregations, build_sort,
}
use advanced_search_api.Search.Query.Request.{
  RelevanceConfig, build_search_request, inner_query, build_text_query, build_suggest, suggest_of,
}
-- The mapping of a field by its path: a property, then its sub-fields.
use advanced_search_api.Index.Mapping.Uses.{
  type_of_field, without_boost, IsMapped, uses_of_dimension, use_of_clause, use_of_counted,
  uses_of_aggregation, uses_of_facets, uses_of_inner, use_of_function, uses_of_sorts,
  uses_of_suggest, clauses_in, uses_of,
}

dimension-IsMapped : (d : FacetDimension) → IsMapped (uses_of_dimension d)
unfolding type_of_field any text_eq
dimension-IsMapped category = refl
dimension-IsMapped subcategories = refl
dimension-IsMapped location = refl
dimension-IsMapped price = refl

clauses-AreMapped : (cs : List Clause) → All IsMapped (map use_of_clause cs)
unfolding type_of_field any text_eq
clauses-AreMapped [] = tt
clauses-AreMapped (term d t ∷ cs) = (dimension-IsMapped d, clauses-AreMapped cs)
clauses-AreMapped (terms d ts ∷ cs) = (dimension-IsMapped d, clauses-AreMapped cs)
clauses-AreMapped (price_range min max ∷ cs) = (refl, clauses-AreMapped cs)

facets-AreMapped :
    (g : FacetAggregations)
    → IsMapped (use_of_counted g.categories.counted)
    → IsMapped (use_of_counted g.subcategories.counted)
    → IsMapped (use_of_counted g.locations.counted)
    → IsMapped (use_of_counted g.price_ranges.counted)
    → All IsMapped (uses_of_facets g)
facets-AreMapped g c s l p =
    All-append IsMapped (uses_of_aggregation g.categories) _
      (c, clauses-AreMapped g.categories.filter)
      (All-append IsMapped (uses_of_aggregation g.subcategories) _
        (s, clauses-AreMapped g.subcategories.filter)
        (All-append IsMapped (uses_of_aggregation g.locations) _
          (l, clauses-AreMapped g.locations.filter) (p, clauses-AreMapped g.price_ranges.filter)))

built-AreMapped :
    (filters : SearchFilters) → All IsMapped (uses_of_facets (build_facet_aggregations filters))
unfolding build_facet_aggregations terms_facet price_facet
built-AreMapped filters =
    facets-AreMapped (build_facet_aggregations filters) (dimension-IsMapped category)
      (dimension-IsMapped subcategories) (dimension-IsMapped location) (dimension-IsMapped price)

inner-IsMapped : (q : Option Text) → All IsMapped (uses_of_inner (inner_query q))
unfolding type_of_field any text_eq without_boost
inner-IsMapped none = tt
inner-IsMapped (some []) = tt
inner-IsMapped (some (c ∷ s)) = (refl, (refl, (refl, (refl, (refl, (refl, tt))))))

functions-AreMapped :
    (q : Option Text) (r : RelevanceConfig)
    → All IsMapped (map use_of_function (build_text_query q r).functions)
unfolding type_of_field any text_eq build_text_query
functions-AreMapped q r = (refl, (refl, tt))

suggest-IsMapped : (q : Option Text) → All IsMapped (uses_of_suggest (suggest_of q))
unfolding type_of_field any text_eq without_boost build_suggest
suggest-IsMapped none = tt
suggest-IsMapped (some []) = tt
suggest-IsMapped (some (c ∷ s)) = (refl, (refl, tt))

sort-IsMapped : (f : SortField) (o : SortOrder) → All IsMapped (uses_of_sorts (build_sort f o))
unfolding type_of_field any text_eq build_sort
sort-IsMapped relevance o = (refl, tt)
sort-IsMapped popularity o = (refl, (refl, tt))
sort-IsMapped created_at o = (refl, (refl, tt))

-- Whatever is searched for, each field that the request names is one of the product index, with a type
-- that serves its use: analysed text for matching and suggesting, keywords for exact filters, facets and
-- the tie-break, numbers for the price and for popularity, and a date for recency.
pub build_search_request-IsMapped :
    (c : SearchCriteria) (r : RelevanceConfig) (from size : ℕ)
    → All IsMapped (uses_of (build_search_request c r from size))
unfolding build_search_request build_text_query
build_search_request-IsMapped c r from size =
    let request = build_search_request c r from size in
    let last = uses_of_suggest request.suggest ++ uses_of_sorts request.sort in
    let counted = uses_of_facets request.aggregations ++ last in
    let clauses = clauses_in request.post_filter in
    All-append IsMapped (uses_of_inner request.query.inner)
      (map use_of_function request.query.functions ++ (map use_of_clause clauses ++ counted))
      (inner-IsMapped c.query)
      (All-append IsMapped (map use_of_function request.query.functions)
        (map use_of_clause clauses ++ counted) (functions-AreMapped c.query r)
        (All-append IsMapped (map use_of_clause clauses) counted (clauses-AreMapped clauses) (
          All-append IsMapped (uses_of_facets request.aggregations) last (built-AreMapped c.filters)
            (All-append IsMapped (uses_of_suggest request.suggest) (uses_of_sorts request.sort)
              (suggest-IsMapped c.query) (sort-IsMapped c.sort c.order)))))
