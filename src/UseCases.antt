-- ===== src/UseCases.antt =====
-- src/application/use-cases: searching, completing and suggesting, the first two through the cache.
pub mod Payload
pub mod Transparent
pub mod Handlers
use advanced_search_api.Base.{ℕ, Text, Option, none, some, Bool, List}
use mathlib.Core.Option
use advanced_search_api.Base.Dict.{Dict}
use advanced_search_api.Json.{Json}
use advanced_search_api.Shared.{Thrown, Result, ok, thrown, Ended, returned, raised}
use advanced_search_api.Config.{AppConfiguration}
use advanced_search_api.Cache.Store.Runs.{Turn, serve}
use advanced_search_api.Search.{SearchCriteria, SearchOutcome, SearchSuggestions}
use advanced_search_api.Search.Query.Request.{RelevanceConfig}
use advanced_search_api.Search.Adapter.{Searched, found, refused, SearchFailure}
use advanced_search_api.Search.Completion.{AutocompleteItem}
use advanced_search_api.Search.Keys.{
  NormalCriteria, build_search_cache_key, build_autocomplete_cache_key, search_cache_scope,
  autocomplete_cache_scope,
}
use advanced_search_api.UseCases.Payload.{Zod, search_outcome_schema, autocomplete_items_schema}
use advanced_search_api.UseCases.Payload.Values.{outcome_json, completions_json}

-- The fields of a use case over the cache.
pub record CachedUseCase : Type 0 where
  pub ttl_seconds : ℕ
  pub cache_scope : Text

unfoldable pub search_products : (Text → RelevanceConfig → Text) → AppConfiguration → CachedUseCase
unfolding search_cache_scope
search_products digest config = record {
  ttl_seconds = config.cache.search_ttl_seconds;
  cache_scope = search_cache_scope digest config.elasticsearch.index config.relevance;
}

unfoldable pub autocomplete : (Text → Text) → AppConfiguration → CachedUseCase
unfolding autocomplete_cache_scope
autocomplete digest config = record {
  ttl_seconds = config.cache.autocomplete_ttl_seconds;
  cache_scope = autocomplete_cache_scope digest config.elasticsearch.index;
}

-- What a call meets besides the entry of its key: a failure of the read, how the write ends and whether
-- it lands, what a load in progress was asked for, and the random number of the jitter.
pub record Circumstances (Asked : Type 0) : Type 0 where
  pub read_failure : Option Thrown
  pub written : Result (Unit {0})
  pub lands : Bool
  pub in_progress : Option Asked
  pub random : ℕ
  pub random_scale : ℕ

abbrev pub as_json : {E A : Type 0} → (A → Json) → Ended E A → Ended E Json
as_json to_json (returned a) = returned (to_json a)
as_json to_json (raised e) = raised e

-- The call of `cacheAside` for a key, where `answer` loads what was asked for.
abbrev pub turn_of :
    {E A Asked : Type 0}
    → (A → Json)
    → (Asked → Ended E A)
    → Text
    → Asked
    → Circumstances Asked
    → Turn E
turn_of to_json answer key asked met = record {
  key = key;
  read_failure = met.read_failure;
  written = met.written;
  lands = met.lands;
  in_progress = Option.map (λ a. as_json to_json (answer a)) met.in_progress;
  loaded = as_json to_json (answer asked);
  random = met.random;
  random_scale = met.random_scale;
}

abbrev pub accepted : Option (Option Json) → Option Json
accepted none = none
accepted (some v) = v

-- A schema as `cacheAside` uses it.
abbrev pub schema_of : (z : Zod) → z.Schema → Json → Option Json
schema_of z s v = accepted (z.safe_parse s (some v))

abbrev pub ended_of : Searched SearchOutcome → Ended SearchFailure SearchOutcome
ended_of (found o) = returned o
ended_of (refused e) = raised e

abbrev pub completed_of : Result (List AutocompleteItem) → Ended Thrown (List AutocompleteItem)
completed_of (ok items) = returned items
completed_of (thrown e) = raised e

module _ (z : Zod) (parse : Text → Result Json) (stringify : Json → Text) where
  -- `SearchProductsUseCase.execute`, over the product search port.
  module _ (digest : NormalCriteria → Text) (port : SearchCriteria → Searched SearchOutcome)
      (use_case : CachedUseCase) where
    abbrev pub search_turn : SearchCriteria → Circumstances SearchCriteria → Turn SearchFailure
    search_turn criteria met =
        turn_of outcome_json (λ c. ended_of (port c))
          (build_search_cache_key digest criteria use_case.cache_scope) criteria met

    unfoldable pub search_execute :
        SearchCriteria
        → Circumstances SearchCriteria
        → Dict Text
        → Ended SearchFailure Json × Dict Text
    unfolding build_search_cache_key search_outcome_schema serve
    search_execute criteria met store =
        serve parse stringify (schema_of z (search_outcome_schema z)) use_case.ttl_seconds
          (search_turn criteria met) store

  -- `AutocompleteUseCase.execute`, over the autocomplete port; what is asked for is a prefix and a limit.
  module _ (lower digest : Text → Text) (port : Text → ℕ → Result (List AutocompleteItem))
      (use_case : CachedUseCase) where
    abbrev pub autocomplete_turn : Text × ℕ → Circumstances (Text × ℕ) → Turn Thrown
    autocomplete_turn (prefix, limit) met =
        turn_of completions_json (λ (p, n). completed_of (port p n))
          (build_autocomplete_cache_key lower digest prefix limit use_case.cache_scope)
          (prefix, limit) met

    unfoldable pub autocomplete_execute :
        Text × ℕ → Circumstances (Text × ℕ) → Dict Text → Ended Thrown Json × Dict Text
    unfolding build_autocomplete_cache_key autocomplete_items_schema serve
    autocomplete_execute asked met store =
        serve parse stringify (schema_of z (autocomplete_items_schema z)) use_case.ttl_seconds
          (autocomplete_turn asked met) store

-- `SuggestQueriesUseCase.execute`, over the query suggestion port.
unfoldable pub suggest_execute : (Text → Result SearchSuggestions) → Text → Result SearchSuggestions
suggest_execute port text = port text
