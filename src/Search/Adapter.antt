-- ===== src/Search/Adapter.antt =====
-- src/infrastructure/elasticsearch/search: the search adapter, and the mapping of what Elasticsearch
-- answers. The client's search is an argument.
pub mod Window
use advanced_search_api.Base.{
  ℕ, ◌+◌, ◌-◌, ◌*◌, Text, str, Option, none, some, Bool, true, false, ◌||◌, List, [], ◌∷◌, map, ltb,
  if◌then◌else◌, ◌or◌,
}
use advanced_search_api.Base.Decimal.{to_decimal}
use advanced_search_api.Shared.{Thrown, Result, ok, thrown}
use advanced_search_api.Domain.{Number}
use advanced_search_api.Index.Bulk.{ProductDocument}
use advanced_search_api.Search.{
  SearchCriteria, FacetBucket, PriceRangeBucket, Facets, SearchSuggestions, ProductSummary,
  SearchOutcome,
}
use advanced_search_api.Search.Query.Request.{RelevanceConfig, SearchRequest, build_search_request}
use advanced_search_api.Search.Completion.{SuggestBlock, to_suggestions}

-- `SearchConfig` of src/config/app-config.ts.
pub record SearchConfig : Type 0 where
  pub default_page_size : ℕ
  pub max_page_size : ℕ
  pub suggest_max_hits : ℕ
  pub max_result_window : ℕ

pub record Hit : Type 0 where
  pub id : Option Text
  pub source : Option ProductDocument
  pub score : Option Number

-- A key of a bucket, a text or a number.
pub data BucketKey : Type 0 where
  text_key : Text → BucketKey
  number_key : ℕ → BucketKey

pub record TermsBucket : Type 0 where
  pub key : BucketKey
  pub doc_count : ℕ

pub record RangeBucket : Type 0 where
  pub from : Option ℕ
  pub to : Option ℕ
  pub doc_count : ℕ

-- An aggregation's optional `values` with its optional `buckets`.
abbrev pub Buckets : Type 0 → Type 0
Buckets B = Option (Option (List B))

pub record RawFacets : Type 0 where
  pub categories : Option (Buckets TermsBucket)
  pub subcategories : Option (Buckets TermsBucket)
  pub locations : Option (Buckets TermsBucket)
  pub price_ranges : Option (Buckets RangeBucket)

-- `hits.total`: absent, a number, or an object with a `value`.
pub data Total : Type 0 where
  no_total : Total
  plain_total : ℕ → Total
  total_object : ℕ → Total

pub record SearchResponse : Type 0 where
  pub total : Total
  pub hits : List Hit
  pub aggregations : Option RawFacets
  pub suggest : Option SuggestBlock

pub data SearchFailure : Type 0 where
  result_window_exceeded : ℕ → ℕ → SearchFailure
  missing_source : Text → SearchFailure
  client_failure : Thrown → SearchFailure

pub data Searched (A : Type 0) : Type 0 where
  found : A → Searched A
  refused : SearchFailure → Searched A

abbrev default_currency : Text
default_currency = str "USD"

abbrev summary_of : Hit → Option ProductDocument → Searched ProductSummary
summary_of hit none = refused (missing_source (hit.id or str "(unknown)"))
summary_of hit (some source) = found (record {
  id = source.id;
  name = source.name;
  description = source.description;
  category = source.category;
  subcategories = source.subcategories;
  location = source.location;
  price = source.price;
  currency = default_currency;
  popularity = source.popularity;
  created_at = source.created_at;
  score = hit.score;
})

unfoldable pub to_product_summary : Hit → Searched ProductSummary
to_product_summary hit = summary_of hit hit.source

abbrev cons_found : ProductSummary → Searched (List ProductSummary) → Searched (List ProductSummary)
cons_found s (refused e) = refused e
cons_found s (found rest) = found (s ∷ rest)

abbrev first_found :
    Searched ProductSummary → Searched (List ProductSummary) → Searched (List ProductSummary)
first_found (refused e) rest = refused e
first_found (found s) rest = cons_found s rest

-- `hits.map(toProductSummary)`, which throws at the first hit that throws.
unfoldable pub to_product_summaries : List Hit → Searched (List ProductSummary)
unfolding to_product_summary
to_product_summaries [] = found []
to_product_summaries (h ∷ hs) = first_found (to_product_summary h) (to_product_summaries hs)

abbrev buckets_in : {B : Type 0} → Option (Buckets B) → List B
buckets_in none = []
buckets_in (some none) = []
buckets_in (some (some none)) = []
buckets_in (some (some (some bs))) = bs

abbrev key_text : BucketKey → Text
key_text (text_key t) = t
key_text (number_key n) = to_decimal n

unfoldable pub to_facet_buckets : Option (Buckets TermsBucket) → List FacetBucket
unfolding to_decimal
to_facet_buckets agg =
    map (λ b. record { key = key_text b.key; count = b.doc_count }) (buckets_in agg)

unfoldable pub to_price_buckets : Option (Buckets RangeBucket) → List PriceRangeBucket
to_price_buckets agg =
    map (λ b. record { from = b.from; to = b.to; count = b.doc_count }) (buckets_in agg)

unfoldable pub to_facets : Option RawFacets → Facets
unfolding to_facet_buckets to_price_buckets
to_facets none = record {
  categories = to_facet_buckets none;
  subcategories = to_facet_buckets none;
  locations = to_facet_buckets none;
  price_ranges = to_price_buckets none;
}
to_facets (some aggs) = record {
  categories = to_facet_buckets aggs.categories;
  subcategories = to_facet_buckets aggs.subcategories;
  locations = to_facet_buckets aggs.locations;
  price_ranges = to_price_buckets aggs.price_ranges;
}

unfoldable pub total_hits : Total → ℕ
total_hits no_total = 0
total_hits (plain_total n) = n
total_hits (total_object n) = n

abbrev pub nothing_suggested : SearchSuggestions
nothing_suggested = record { did_you_mean = none; related = [] }

abbrev is_absent : Option Text → Bool
is_absent none = true
is_absent (some []) = true
is_absent (some (_ ∷ _)) = false

unfoldable pub resolve_suggestions :
    SearchConfig → Option Text → ℕ → Option SuggestBlock → SearchSuggestions
unfolding to_suggestions
resolve_suggestions config query total suggest =
    if is_absent query || ltb config.suggest_max_hits total
    then nothing_suggested
    else to_suggestions suggest

-- A page is at least 1, by the validation of the query.
unfoldable pub resolve_window : SearchConfig → ℕ → ℕ → Searched (ℕ × ℕ)
resolve_window config page page_size =
    let from = (page - 1) * page_size in
    if ltb config.max_result_window (from + page_size)
    then refused (result_window_exceeded config.max_result_window (from + page_size))
    else found (from, page_size)

module _ (config : SearchConfig) (relevance : RelevanceConfig) where
  abbrev pub with_items :
      SearchCriteria → SearchResponse → Searched (List ProductSummary) → Searched SearchOutcome
  with_items criteria r (refused e) = refused e
  with_items criteria r (found items) = found (record {
    items = items;
    total = total_hits r.total;
    facets = to_facets r.aggregations;
    suggestions = resolve_suggestions config criteria.query (total_hits r.total) r.suggest;
  })

  abbrev pub to_outcome : SearchCriteria → Result SearchResponse → Searched SearchOutcome
  to_outcome criteria (thrown e) = refused (client_failure e)
  to_outcome criteria (ok r) = with_items criteria r (to_product_summaries r.hits)

  abbrev pub search_window :
      (SearchRequest → Result SearchResponse)
      → SearchCriteria
      → Searched (ℕ × ℕ)
      → Searched SearchOutcome
  search_window client criteria (refused e) = refused e
  search_window client criteria (found (from, size)) =
      to_outcome criteria (client (build_search_request criteria relevance from size))

  unfoldable pub search :
      (SearchRequest → Result SearchResponse) → SearchCriteria → Searched SearchOutcome
  unfolding resolve_window build_search_request to_product_summaries total_hits to_facets
      resolve_suggestions
  search client criteria =
      search_window client criteria (resolve_window config criteria.page criteria.page_size)
