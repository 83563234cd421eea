-- ===== src/Examples/Cached.antt =====
-- Runs of the use cases through the cache, over a small zod.
use advanced_search_api.Base.{
  ℕ, Text, str, Option, none, some, ◌≡◌, refl, sym, ap, ◌∙◌, List, [], ◌∷◌, map, true, All, subst,
  length,
}
use advanced_search_api.Base.Trim.{trim}
use advanced_search_api.Search.Query.Request.{SearchRequest}
use advanced_search_api.Json.{Json, null, num, text, arr, obj}
use advanced_search_api.Domain.{negative, fraction}
use advanced_search_api.Shared.{error_object, Result, ok, thrown, returned}
use advanced_search_api.Search.{SearchCriteria}
use advanced_search_api.Search.Adapter.{SearchResponse, Hit, search}
use advanced_search_api.Search.Completion.{
  complete, to_autocomplete_items, AutocompleteRequest, NameHit,
}
use advanced_search_api.Search.Keys.{normalize}
use advanced_search_api.UseCases.{
  CachedUseCase, Circumstances, search_execute, autocomplete_execute,
}
use advanced_search_api.UseCases.Payload.{
  Zod, Parser, parse_items, parse_shape, as_array, as_object, search_outcome_schema,
}
use advanced_search_api.UseCases.Payload.Values.{IsFiniteScore, outcome_json, completions_json}
use advanced_search_api.UseCases.Payload.Accepted.{search_outcome_schema_accepts}
use advanced_search_api.UseCases.Transparent.{Step, ask, lose, answers_of, uncached}
use advanced_search_api.UseCases.Transparent.Searches.{search_json, search_execute_transparent}
use advanced_search_api.UseCases.Transparent.Completions.{
  completions_of, autocomplete_execute_transparent,
}
use advanced_search_api.Examples.Queries.{
  reply, asked, limits, ranking, engine, shown, name_hits, short_digest,
}

abbrev a_string : Parser
a_string (some (text t)) = some (some (text t))
a_string _ = none

abbrev a_number : Parser
a_number (some (num (fraction n d))) = some (some (num (fraction n d)))
a_number (some (num negative)) = some (some (num negative))
a_number _ = none

abbrev an_optional : Parser → Parser
an_optional s none = some none
an_optional s (some v) = s (some v)

abbrev a_nullable : Parser → Parser
a_nullable s (some null) = some (some null)
a_nullable s v = s v

abbrev an_array : Parser → Parser
an_array s (some (arr vs)) = as_array (parse_items s vs)
an_array s _ = none

abbrev an_object : List (Text × Parser) → Parser
an_object shape (some (obj fs)) = as_object (parse_shape shape fs)
an_object shape _ = none

same_shape : (shape : List (Text × Parser)) → map (λ (k, s). (k, s)) shape ≡ shape
same_shape [] = refl
same_shape (p ∷ shape) = ap (λ rest. p ∷ rest) (same_shape shape)

abbrev small_zod : Zod
small_zod = record {
  Schema = Parser;
  z_string = a_string;
  z_number = a_number;
  z_optional = an_optional;
  z_nullable = a_nullable;
  z_array = an_array;
  z_object = an_object;
  safe_parse = λ s. s;
  string_accepts = λ t. refl;
  number_accepts = λ n d. refl;
  number_accepts_negative = refl;
  optional_undefined = λ s. refl;
  optional_defined = λ s v. refl;
  nullable_null = λ s. refl;
  nullable_text = λ s t. refl;
  array_items = λ s vs. refl;
  object_shape = λ shape fs. ap (λ sh. as_object (parse_shape sh fs)) (sym (same_shape shape));
}

search_outcome_schema_accepts_example :
    small_zod.safe_parse (search_outcome_schema small_zod) (some (outcome_json shown))
    ≡ some (some (outcome_json shown))
search_outcome_schema_accepts_example = search_outcome_schema_accepts small_zod shown (tt, tt)

-- The text of the one value that is cached here.
abbrev read_shown : Text → Result Json
read_shown _ = ok (outcome_json shown)

abbrev write_shown : Json → Text
write_shown _ = str "shown"

abbrev for_a_minute : CachedUseCase
for_a_minute = record { ttl_seconds = 60; cache_scope = str "0a1b2c3d" }

abbrev quiet : {Asked : Type 0} → Option Asked → Circumstances Asked
quiet joined = record {
  read_failure = none;
  written = ok tt;
  lands = true;
  in_progress = joined;
  random = 1;
  random_scale = 2;
}

abbrev redis_away : {Asked : Type 0} → Circumstances Asked
redis_away = record {
  read_failure = some (error_object (str "ECONNREFUSED"));
  written = thrown (error_object (str "ECONNREFUSED"));
  lands = true;
  in_progress = none;
  random = 1;
  random_scale = 2;
}

abbrev searches : List (Step SearchCriteria)
searches =
    ask asked (quiet none)
    ∷ ask asked (quiet (some asked))
    ∷ ask asked redis_away
    ∷ lose (str "search:v1:0a1b2c3d:")
    ∷ ask asked (quiet (some asked))
    ∷ []

shown_again :
    (c : SearchCriteria) (v : Json)
    → c ≡ asked
    → search_json small_zod read_shown write_shown short_digest limits ranking engine for_a_minute c
      ≡ returned v
    → read_shown (write_shown v) ≡ ok v
unfolding search
shown_again c v is e = let value : returned (outcome_json shown) ≡ returned v = rw is at e in cc

finite_reply :
    (r : SearchRequest) (found_reply : SearchResponse)
    → engine r ≡ ok found_reply
    → All (λ (h : Hit). IsFiniteScore h.score) found_reply.hits
finite_reply r found_reply e =
    let same : reply ≡ found_reply = cc in
    subst (λ (x : SearchResponse). All (λ (h : Hit). IsFiniteScore h.score) x.hits) same (tt, tt)

search_execute_transparent_example :
    answers_of
      (search_execute small_zod read_shown write_shown short_digest
        (search limits ranking engine)
        for_a_minute)
      searches
      []
    ≡ uncached
        (search_json small_zod read_shown write_shown short_digest limits ranking engine
          for_a_minute)
        searches
search_execute_transparent_example =
    search_execute_transparent small_zod read_shown write_shown short_digest limits ranking engine
      for_a_minute (λ c. c ≡ asked) shown_again (λ c from size. refl) finite_reply
      (λ c c' is is' e. ap normalize (is ∙ sym is')) searches
      (refl, tt, (refl, (refl, refl), (refl, tt, (refl, (refl, refl), tt))))

abbrev names : AutocompleteRequest → Result (List NameHit)
names _ = ok name_hits

abbrev as_typed : Text → Text
as_typed t = t

abbrev read_names : Text → Result Json
read_names _ = ok (completions_json (to_autocomplete_items name_hits))

abbrev typed : List (Step (Text × ℕ))
typed = ask (str "la", 10) (quiet none) ∷ ask (str "la", 10) (quiet (some (str "la", 10))) ∷ []

named_again :
    (a : Text × ℕ) (v : Json)
    → a ≡ (str "la", 10)
    → completions_of small_zod read_names write_shown as_typed as_typed names for_a_minute a
      ≡ returned v
    → read_names (write_shown v) ≡ ok v
unfolding complete
named_again (p, n) v is e = cc

finite_names :
    (r : AutocompleteRequest) (hits : List NameHit)
    → names r ≡ ok hits
    → All (λ (h : NameHit). IsFiniteScore h.score) hits
finite_names r hits e =
    let same : name_hits ≡ hits = cc in
    subst (λ x. All (λ (h : NameHit). IsFiniteScore h.score) x) same (tt, (tt, (tt, (tt, tt))))

autocomplete_execute_transparent_example :
    answers_of
      (autocomplete_execute small_zod read_names write_shown as_typed as_typed
        (complete names)
        for_a_minute)
      typed
      []
    ≡ uncached
        (completions_of small_zod read_names write_shown as_typed as_typed names for_a_minute)
        typed
autocomplete_execute_transparent_example =
    autocomplete_execute_transparent small_zod read_names write_shown as_typed as_typed names
      for_a_minute (λ a. a ≡ (str "la", 10)) (λ p q limit e. refl)
      (λ a b is is'. ap (λ (x : Text × ℕ). length (trim x.0)) (is ∙ sym is'))
      (λ a b is is' e. ap (λ (x : Text × ℕ). trim x.0) (is ∙ sym is')) named_again finite_names
      typed (refl, tt, (refl, (refl, refl), tt))
