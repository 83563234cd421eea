-- ===== src/Search/Query.antt =====
-- src/infrastructure/elasticsearch/search/query: filter.builder.ts, facet-aggregations.builder.ts and
-- sort.builder.ts.
pub mod Facet
pub mod Request
use advanced_search_api.Base.{
  ℕ, Text, str, Option, none, some, Bool, true, false, List, [], ◌∷◌, ◌++◌,
}
use advanced_search_api.Domain.{Number}
use advanced_search_api.Search.{
  SearchFilters, SearchCriteria, SortField, relevance, popularity, created_at, SortOrder, asc, desc,
}

pub data FacetDimension : Type 0 where
  category subcategories location price : FacetDimension

-- `term` and `terms` of a field, and the `range` of the price with its `gte` and `lte`.
pub data Clause : Type 0 where
  term : FacetDimension → Text → Clause
  terms : FacetDimension → List Text → Clause
  price_range : Option Number → Option Number → Clause

abbrev excludes : Option FacetDimension → FacetDimension → Bool
excludes (some category) category = true
excludes (some subcategories) subcategories = true
excludes (some location) location = true
excludes (some price) price = true
excludes _ _ = false

-- A text that is absent or empty is no filter.
abbrev pub term_clause : FacetDimension → Option Text → List Clause
term_clause d none = []
term_clause d (some []) = []
term_clause d (some (c ∷ s)) = term d (c ∷ s) ∷ []

abbrev pub terms_clause : Option (List Text) → List Clause
terms_clause none = []
terms_clause (some []) = []
terms_clause (some (t ∷ ts)) = terms subcategories (t ∷ ts) ∷ []

unfoldable pub build_price_range : Option Number → Option Number → List Clause
build_price_range none none = []
build_price_range none (some max) = price_range none (some max) ∷ []
build_price_range (some min) none = price_range (some min) none ∷ []
build_price_range (some min) (some max) = price_range (some min) (some max) ∷ []

abbrev unless : Bool → List Clause → List Clause
unless true clauses = []
unless false clauses = clauses

unfoldable pub build_filter_clauses : SearchFilters → Option FacetDimension → List Clause
unfolding build_price_range
build_filter_clauses f exclude =
    unless (excludes exclude category) (term_clause category f.category)
    ++ (unless (excludes exclude subcategories) (terms_clause f.subcategories)
        ++ (unless (excludes exclude location) (term_clause location f.location)
            ++ unless (excludes exclude price) (build_price_range f.min_price f.max_price)))

abbrev pub facet_terms_size : ℕ
facet_terms_size = 50

-- `from` is inclusive, `to` exclusive.
abbrev pub price_ranges : List (Option ℕ × Option ℕ)
price_ranges = (none, some 50) ∷ (some 50, some 100) ∷ (some 100, some 500) ∷ (some 500, none) ∷ []

-- What a facet counts: the values of a field, or the buckets of the price.
pub data Counted : Type 0 where
  values_of : FacetDimension → ℕ → Counted
  buckets_of : List (Option ℕ × Option ℕ) → Counted

pub record Aggregation : Type 0 where
  pub filter : List Clause
  pub counted : Counted

unfoldable pub terms_facet : SearchFilters → FacetDimension → Aggregation
unfolding build_filter_clauses
terms_facet filters dimension = record {
  filter = build_filter_clauses filters (some dimension);
  counted = values_of dimension facet_terms_size;
}

unfoldable pub price_facet : SearchFilters → Aggregation
unfolding build_filter_clauses
price_facet filters = record {
  filter = build_filter_clauses filters (some price);
  counted = buckets_of price_ranges;
}

pub record FacetAggregations : Type 0 where
  pub categories : Aggregation
  pub subcategories : Aggregation
  pub locations : Aggregation
  pub price_ranges : Aggregation

unfoldable pub build_facet_aggregations : SearchFilters → FacetAggregations
unfolding terms_facet price_facet
build_facet_aggregations filters = record {
  categories = terms_facet filters category;
  subcategories = terms_facet filters subcategories;
  locations = terms_facet filters location;
  price_ranges = price_facet filters;
}

pub data SortKey : Type 0 where
  by_score by_popularity by_created_at by_id : SortOrder → SortKey

unfoldable pub build_sort : SortField → SortOrder → List SortKey
build_sort popularity order = by_popularity order ∷ by_score desc ∷ by_id asc ∷ []
build_sort created_at order = by_created_at order ∷ by_score desc ∷ by_id asc ∷ []
build_sort relevance order = by_score order ∷ by_id asc ∷ []
