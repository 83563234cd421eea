-- ===== src/Search/Suggestion.antt =====
-- src/infrastructure/elasticsearch/suggestion/query-suggestion.adapter.ts: the suggestions of GET /suggest.
use advanced_search_api.Base.{ℕ, Text, Option}
use advanced_search_api.Shared.{Result, ok, thrown}
use advanced_search_api.Search.{SearchSuggestions}
use advanced_search_api.Search.Query.Request.{SuggestRequest, build_suggest}
use advanced_search_api.Search.Completion.{SuggestBlock, to_suggestions}

pub record SuggestionRequest : Type 0 where
  pub index : Text
  pub size : ℕ
  pub suggest : SuggestRequest

abbrev pub suggested : Result (Option SuggestBlock) → Result SearchSuggestions
suggested (thrown e) = thrown e
suggested (ok block) = ok (to_suggestions block)

-- The client's search gives the `suggest` part of its answer.
unfoldable pub suggest :
    (SuggestionRequest → Result (Option SuggestBlock)) → Text → Text → Result SearchSuggestions
unfolding build_suggest to_suggestions
suggest client index text =
    suggested (client (record { index = index; size = 0; suggest = build_suggest text }))
