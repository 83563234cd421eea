-- ===== src/Search/Query/Request.antt =====
-- src/infrastructure/elasticsearch: search/query/text-query.builder.ts, suggestion/suggest.builder.ts and
-- search/query/search-query.builder.ts, the whole request.
use advanced_search_api.Base.{ℕ, Text, str, Option, none, some, Bool, true, List, [], ◌∷◌}
use advanced_search_api.Domain.{Number}
use advanced_search_api.Search.{SearchCriteria}
use advanced_search_api.Search.Query.{
  Clause, FacetAggregations, SortKey, build_filter_clauses, build_facet_aggregations, build_sort,
}

-- `RelevanceConfig` of src/config/app-config.ts.
pub record RelevanceConfig : Type 0 where
  pub popularity_factor : Number
  pub recency_scale : Text
  pub recency_decay : Number

abbrev pub field_boosts : List Text
field_boosts =
    str "name^4"
    ∷ str "name.std^2"
    ∷ str "category.text^2"
    ∷ str "subcategories.text^1.5"
    ∷ str "location.text^1"
    ∷ str "description^1"
    ∷ []

abbrev pub recency_offset : Text
recency_offset = str "7d"

pub record MultiMatch : Type 0 where
  pub query : Text
  pub kind : Text
  pub fields : List Text
  pub fuzziness : Text
  pub operator : Text
  pub minimum_should_match : Text

pub data InnerQuery : Type 0 where
  multi_match : MultiMatch → InnerQuery
  match_all : InnerQuery

pub data ScoreFunction : Type 0 where
  -- The field, the modifier, and the factor.
  field_value_factor : Text → Text → Number → ScoreFunction
  -- The field, the origin, the scale, the offset, and the decay.
  gauss : Text → Text → Text → Text → Number → ScoreFunction

pub record TextQuery : Type 0 where
  pub inner : InnerQuery
  pub functions : List ScoreFunction
  pub score_mode : Text
  pub boost_mode : Text

abbrev pub inner_query : Option Text → InnerQuery
inner_query none = match_all
inner_query (some []) = match_all
inner_query (some (c ∷ s)) = multi_match (record {
  query = c ∷ s;
  kind = str "best_fields";
  fields = field_boosts;
  fuzziness = str "AUTO";
  operator = str "or";
  minimum_should_match = str "60%";
})

unfoldable pub build_text_query : Option Text → RelevanceConfig → TextQuery
build_text_query query r = record {
  inner = inner_query query;
  functions =
      field_value_factor (str "popularity") (str "ln1p") r.popularity_factor
      ∷ gauss (str "createdAt") (str "now") r.recency_scale recency_offset r.recency_decay
      ∷ [];
  score_mode = str "sum";
  boost_mode = str "multiply";
}

-- The phrase suggester and the term suggester.
pub record SuggestRequest : Type 0 where
  pub text : Text
  pub phrase_field : Text
  pub phrase_size : ℕ
  pub gram_size : ℕ
  pub max_errors : ℕ
  pub generator_mode : Text
  pub collate_source : Text
  pub collate_prune : Bool
  pub term_field : Text
  pub term_mode : Text
  pub term_size : ℕ

unfoldable pub build_suggest : Text → SuggestRequest
build_suggest text = record {
  text = text;
  phrase_field = str "suggest_text.trigram";
  phrase_size = 1;
  gram_size = 3;
  max_errors = 2;
  generator_mode = str "always";
  collate_source = str "{\"match\":{\"suggest_text\":\"{{suggestion}}\"}}";
  collate_prune = true;
  term_field = str "suggest_text";
  term_mode = str "popular";
  term_size = 3;
}

pub record SearchRequest : Type 0 where
  pub from : ℕ
  pub size : ℕ
  pub track_total_hits : Bool
  pub query : TextQuery
  pub post_filter : Option (List Clause)
  pub aggregations : FacetAggregations
  pub suggest : Option SuggestRequest
  pub sort : List SortKey

-- An empty list of filters is left out, and so is an empty query.
abbrev post_filter_of : List Clause → Option (List Clause)
post_filter_of [] = none
post_filter_of (c ∷ cs) = some (c ∷ cs)

abbrev pub suggest_of : Option Text → Option SuggestRequest
suggest_of none = none
suggest_of (some []) = none
suggest_of (some (c ∷ s)) = some (build_suggest (c ∷ s))

unfoldable pub build_search_request : SearchCriteria → RelevanceConfig → ℕ → ℕ → SearchRequest
unfolding build_filter_clauses build_text_query build_facet_aggregations build_suggest build_sort
build_search_request criteria config from size = record {
  from = from;
  size = size;
  track_total_hits = true;
  query = build_text_query criteria.query config;
  post_filter = post_filter_of (build_filter_clauses criteria.filters none);
  aggregations = build_facet_aggregations criteria.filters;
  suggest = suggest_of criteria.query;
  sort = build_sort criteria.sort criteria.order;
}
