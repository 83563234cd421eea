-- ===== src/Examples/Gate.antt =====
-- A flood of guesses at the two guards.
use advanced_search_api.Base.{
  ℕ, Text, str, Bool, false, ◌≡◌, refl, List, [], ◌∷◌, ◌++◌, arith, text_eq, if◌then◌else◌,
}
use advanced_search_api.Base.Dict.{get}
use advanced_search_api.Shared.Paths.{matches_path}
use advanced_search_api.Auth.{single, presented_key, create_key_identifier}
use advanced_search_api.RateLimit.Memory.{MemoryStore, new_store}
use advanced_search_api.RateLimit.Options.{RateLimitConfig, TrackedRequest, skip_if, resolve_limit}
use advanced_search_api.RateLimit.Throttler.{ThrottlerRecord}
use advanced_search_api.RateLimit.Guard.{ThrottlerLibrary, ThrottlerOptions, throttling_exception}
use advanced_search_api.Gateway.{refused, unauthorized_exception, Arrival, gate}
use advanced_search_api.Gateway.Flood.{flood_answers, gate_flood}
use advanced_search_api.Examples.Edge.{plain_crypto, guarded, limits, keyed}

abbrev Increment : Type 0
Increment = Text → ℕ → ℕ → Text → MemoryStore → ThrottlerRecord × MemoryStore

abbrev joined_key : Text → Text → Text → Text
joined_key route tracker name = route ++ (str "-" ++ (name ++ (str "-" ++ tracker)))

abbrev blocked_by : ThrottlerRecord × MemoryStore → Bool × MemoryStore
blocked_by (told, s) = (told.is_blocked, s)

abbrev library_handles :
    Increment → ThrottlerOptions → Text → TrackedRequest → MemoryStore → Bool × MemoryStore
library_handles increment o route request s =
    if o.skip_if request
    then (false, s)
    else blocked_by (
        increment (joined_key route (o.get_tracker request) o.name) o.ttl (o.limit request) o.name
          s)

abbrev throttler : ThrottlerLibrary MemoryStore
throttler = record {
  generate_key = joined_key;
  handles = library_handles;
  skipped = λ increment o route request s e. rw e refl;
  counted = λ increment o route request s e. rw e refl;
}

abbrev tight : RateLimitConfig
tight = record limits { search = 2 }

abbrev guess : Text → ℕ → Arrival
guess key at = record { request = record keyed { key_header = single key }; at = at }

abbrev guesses : List Arrival
guesses = guess (str "second") 1200 ∷ guess (str "third") 1300 ∷ []

gate_flood_example :
    gate throttler plain_crypto tight guarded
      (str "SearchController-search")
      (guess (str "first") 1000 ∷ guesses)
      new_store
    ≡ refused unauthorized_exception
      ∷ refused unauthorized_exception
      ∷ refused throttling_exception
      ∷ []
unfolding flood_answers skip_if resolve_limit matches_path text_eq new_store get
    create_key_identifier presented_key
gate_flood_example =
    gate_flood throttler plain_crypto tight guarded (str "SearchController-search") (str "10.0.0.1")
      2 (guess (str "first") 1000) guesses new_store refl tt refl
      (
        (refl, refl, refl, refl, refl, omega arith),
        (
          (refl, refl, refl, refl, refl, omega arith),
          ((refl, refl, refl, refl, refl, omega arith), tt),
        ),
      )
