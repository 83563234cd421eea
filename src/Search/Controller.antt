-- ===== src/Search/Controller.antt =====
-- src/presentation/search and src/presentation/common: from the query of a request to search criteria,
-- and from an outcome to the answer.
pub mod Pages
use advanced_search_api.Base.{
  ℕ, suc, ◌+◌, ◌-◌, ◌*◌, ◌/◌, Text, str, Option, none, some, Bool, true, false, ◌&&◌, List, [], ◌∷◌,
  ◌++◌, map, leb, ltb, if◌then◌else◌, every, length, ◌or◌,
}
use advanced_search_api.Base.Trim.{trim, split}
use advanced_search_api.Base.Decimal.{to_decimal}
use advanced_search_api.Domain.{Number, not_finite, negative, fraction}
use advanced_search_api.Search.{
  SearchCriteria, SearchFilters, SortField, relevance, popularity, SortOrder, desc, ProductSummary,
  Facets, SearchSuggestions, SearchOutcome,
}
use advanced_search_api.Search.Adapter.{SearchConfig, SearchFailure, Searched, found, refused}

abbrev pub max_query_length : ℕ
max_query_length = 256

abbrev pub max_term_length : ℕ
max_term_length = 128

abbrev pub max_subcategories : ℕ
max_subcategories = 20

-- The query after its transforms. `sort` and `order` are among the known ones by their types.
pub record SearchQuery : Type 0 where
  pub q : Option Text
  pub category : Option Text
  pub subcategory : Option (List Text)
  pub location : Option Text
  pub min_price : Option Number
  pub max_price : Option Number
  pub sort : Option SortField
  pub order : Option SortOrder
  pub page : Option ℕ
  pub page_size : Option ℕ

-- A query parameter: one value, several, or something else.
pub data Parameter : Type 0 where
  one : Text → Parameter
  repeated : List Text → Parameter
  neither : Parameter

unfoldable pub drop_empty : List Text → List Text
drop_empty [] = []
drop_empty ([] ∷ ts) = drop_empty ts
drop_empty ((c ∷ s) ∷ ts) = (c ∷ s) ∷ drop_empty ts

abbrev raw_items : Parameter → List Text
raw_items (one value) = split b',' value
raw_items (repeated values) = values
raw_items neither = []

unfoldable pub to_string_array : Parameter → List Text
unfolding drop_empty trim split
to_string_array value = drop_empty (map trim (raw_items value))

-- The constraints on each property: `optional` is `IsOptional`, `within` is `MaxLength`, here in
-- code units, `at_least_0` is
-- `IsNumber` and `Min(0)`.
abbrev optional : {A : Type 0} → (A → Bool) → Option A → Bool
optional p none = true
optional p (some a) = p a

abbrev within : ℕ → Text → Bool
within n t = leb (length t) n

abbrev at_least_0 : Number → Bool
at_least_0 not_finite = false
at_least_0 negative = false
at_least_0 (fraction _ _) = true

-- `minPrice <= value`, for numbers that are not negative.
unfoldable pub number_le : Number → Number → Bool
number_le (fraction n d) (fraction m e) = leb (n * suc e) (m * suc d)
number_le negative (fraction m e) = true
number_le negative negative = true
number_le _ _ = false

unfoldable pub is_not_below_min_price : Option Number → Option Number → Bool
unfolding number_le
is_not_below_min_price none max = true
is_not_below_min_price (some min) none = true
is_not_below_min_price (some min) (some max) = number_le min max

unfoldable pub is_valid : SearchQuery → Bool
unfolding every is_not_below_min_price
is_valid dto =
    optional (within max_query_length) dto.q
    && optional (within max_term_length) dto.category
    && optional (λ ts. every (within max_term_length) ts && leb (length ts) max_subcategories)
        dto.subcategory
    && optional (within max_term_length) dto.location
    && optional at_least_0 dto.min_price
    && optional at_least_0 dto.max_price
    && is_not_below_min_price dto.min_price dto.max_price
    && optional (leb 1) dto.page
    && optional (leb 1) dto.page_size

abbrev not_blank : Text → Option Text
not_blank [] = none
not_blank (c ∷ s) = some (c ∷ s)

unfoldable pub query_text : Option Text → Option Text
unfolding trim
query_text none = none
query_text (some q) = not_blank (trim q)

abbrev default_sort : Option Text → SortField
default_sort none = popularity
default_sort (some _) = relevance

unfoldable pub to_search_criteria : SearchQuery → SearchConfig → SearchCriteria
unfolding query_text
to_search_criteria dto config = record {
  query = query_text dto.q;
  filters = record {
    category = dto.category;
    subcategories = dto.subcategory;
    location = dto.location;
    min_price = dto.min_price;
    max_price = dto.max_price;
  };
  sort = dto.sort or default_sort (query_text dto.q);
  order = dto.order or desc;
  page = dto.page or 1;
  page_size = dto.page_size or config.default_page_size;
}

-- `Math.ceil(total / size)`.
unfoldable pub total_pages : ℕ → ℕ → ℕ
total_pages total page_size = if ltb 0 page_size then (total + (page_size - 1)) / page_size else 0

pub record SearchMeta : Type 0 where
  pub total : ℕ
  pub page : ℕ
  pub page_size : ℕ
  pub total_pages : ℕ
  pub sort : SortField
  pub order : SortOrder

pub record SearchAnswer : Type 0 where
  pub data_items : List ProductSummary
  pub meta : SearchMeta
  pub facets : Facets
  pub suggestions : SearchSuggestions

unfoldable pub to_search_response : SearchOutcome → SearchCriteria → SearchAnswer
unfolding total_pages
to_search_response outcome criteria = record {
  data_items = outcome.items;
  meta = record {
    total = outcome.total;
    page = criteria.page;
    page_size = criteria.page_size;
    total_pages = total_pages outcome.total criteria.page_size;
    sort = criteria.sort;
    order = criteria.order;
  };
  facets = outcome.facets;
  suggestions = outcome.suggestions;
}

-- How the handler ends: a bad request, what the use case throws, or an answer with the values of its
-- `Cache-Control` and `Vary` headers.
pub data Handled : Type 0 where
  bad_page_size : ℕ → Handled
  failed : SearchFailure → Handled
  answered : Text → Text → SearchAnswer → Handled

unfoldable pub page_size_within_limit : SearchConfig → Option ℕ → Bool
page_size_within_limit config none = true
page_size_within_limit config (some size) = leb size config.max_page_size

abbrev rendered : ℕ → SearchCriteria → Searched SearchOutcome → Handled
rendered ttl criteria (refused e) = failed e
rendered ttl criteria (found outcome) =
    answered (str "private, max-age=" ++ to_decimal ttl) (str "x-api-key")
      (to_search_response outcome criteria)

-- The handler over the use case.
unfoldable pub search_handler :
    SearchConfig → ℕ → (SearchCriteria → Searched SearchOutcome) → SearchQuery → Handled
unfolding page_size_within_limit to_search_criteria to_search_response to_decimal
search_handler config ttl execute dto =
    if page_size_within_limit config dto.page_size
    then rendered ttl (to_search_criteria dto config) (execute (to_search_criteria dto config))
    else bad_page_size config.max_page_size
