-- ===== src/UseCases/Handlers.antt =====
-- src/presentation/autocomplete and src/presentation/suggestion: the validated queries and the handlers.
pub mod Bounds
use advanced_search_api.Base.{
  ℕ, suc, ◌+◌, ◌≤◌, Text, str, Option, none, some, Bool, true, false, ◌&&◌, List, [], ◌∷◌, leb,
  length, ◌or◌, ◌≡◌, refl, arith, leb→le, if◌then◌else◌,
}
use advanced_search_api.Shared.{Result, ok, thrown}
use advanced_search_api.Search.{SearchSuggestions}
use advanced_search_api.Search.Query.Request.{SuggestRequest, build_suggest}
use advanced_search_api.Search.Completion.{
  AutocompleteItem, NameHit, AutocompleteRequest, build_autocomplete_request, complete, completed,
  to_autocomplete_items, items_from, item_of, has, SuggestBlock, to_suggestions,
}
use advanced_search_api.Search.Controller.{max_query_length}
use advanced_search_api.Search.Suggestion.{suggest, SuggestionRequest}
use advanced_search_api.UseCases.{suggest_execute}

-- `q` is there and is a string by the type; `IsNotEmpty` and `MaxLength` are left to test.
pub record AutocompleteQueryDto : Type 0 where
  pub q : Text
  pub limit : Option ℕ

unfoldable pub is_query_text : Text → Bool
is_query_text q = leb 1 (length q) && leb (length q) max_query_length

abbrev limit_is_valid : Option ℕ → Bool
limit_is_valid none = true
limit_is_valid (some n) = leb 1 n && leb n 20

unfoldable pub autocomplete_is_valid : AutocompleteQueryDto → Bool
unfolding is_query_text
autocomplete_is_valid dto = is_query_text dto.q && limit_is_valid dto.limit

abbrev pub default_limit : ℕ
default_limit = 10

-- The answers' `data`; the use case takes the prefix and the limit.
unfoldable pub complete_handler : {A : Type 0} → (Text → ℕ → A) → AutocompleteQueryDto → A
complete_handler execute dto = execute dto.q (dto.limit or default_limit)

unfoldable pub suggest_handler : (Text → Result SearchSuggestions) → Text → Result SearchSuggestions
unfolding suggest_execute
suggest_handler port q = suggest_execute port q
