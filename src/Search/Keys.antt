-- ===== src/Search/Keys.antt =====
-- src/application/caching: search-cache-key.ts, autocomplete-cache-key.ts and cache-scope.ts. `JSON.stringify`
-- and the SHA-1 digest in hex are one argument, a function on what is digested.
pub mod Sharing
pub mod Replies
pub mod Prefixes
use advanced_search_api.Base.{
  ℕ, Text, str, Option, none, some, List, [], ◌∷◌, ◌++◌, ◌or◌, leb, ◌&&◌, ◌+◌, if◌then◌else◌,
}
use advanced_search_api.Base.Decimal.{to_decimal}
use advanced_search_api.Base.Sorting.{sort_texts}
use advanced_search_api.Base.Trim.{trim}
use advanced_search_api.Shared.Paths.{slice_to}
use advanced_search_api.Domain.{Number}
use advanced_search_api.Search.{SearchCriteria, SearchFilters, SortField, SortOrder}
use advanced_search_api.Search.Query.Request.{RelevanceConfig}

-- What `normalize` returns.
pub record NormalCriteria : Type 0 where
  pub q : Text
  pub category : Text
  pub subcategories : List Text
  pub location : Text
  pub min_price : Option Number
  pub max_price : Option Number
  pub sort : SortField
  pub order : SortOrder
  pub page : ℕ
  pub page_size : ℕ

unfoldable pub normalize : SearchCriteria → NormalCriteria
unfolding sort_texts
normalize c = record {
  q = c.query or [];
  category = c.filters.category or [];
  subcategories = sort_texts (c.filters.subcategories or []);
  location = c.filters.location or [];
  min_price = c.filters.min_price;
  max_price = c.filters.max_price;
  sort = c.sort;
  order = c.order;
  page = c.page;
  page_size = c.page_size;
}

abbrev pub search_namespace : Text
search_namespace = str "search:v1"

unfoldable pub build_search_cache_key : (NormalCriteria → Text) → SearchCriteria → Text → Text
unfolding normalize
build_search_cache_key digest criteria scope =
    search_namespace ++ (str ":" ++ (scope ++ (str ":" ++ digest (normalize criteria))))

abbrev pub autocomplete_namespace : Text
autocomplete_namespace = str "ac:v1"

-- `lower` is `String.prototype.toLowerCase`.
unfoldable pub build_autocomplete_cache_key : (Text → Text) → (Text → Text) → Text → ℕ → Text → Text
unfolding trim to_decimal
build_autocomplete_cache_key lower digest prefix limit scope =
    autocomplete_namespace
    ++ (str ":"
        ++ (scope ++ (str ":" ++ (digest (lower (trim prefix)) ++ (str ":" ++ to_decimal limit)))))

abbrev pub scope_length : ℕ
scope_length = 8

-- The scopes; `digest` takes the name of the index, and for searches the relevance settings.
unfoldable pub search_cache_scope : (Text → RelevanceConfig → Text) → Text → RelevanceConfig → Text
unfolding slice_to
search_cache_scope digest index relevance = slice_to scope_length (digest index relevance)

unfoldable pub autocomplete_cache_scope : (Text → Text) → Text → Text
unfolding slice_to
autocomplete_cache_scope digest index = slice_to scope_length (digest index)
