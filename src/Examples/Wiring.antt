-- ===== src/Examples/Wiring.antt =====
-- Runs of the entry points, the contract's middlewares and the load test.
use advanced_search_api.Base.{
  ℕ, ◌≤◌, Text, str, Option, none, some, true, ◌≡◌, ◌↔◌, refl, List, [], ◌∷◌, ◌++◌, All, length,
  is_some,
}
use advanced_search_api.Shared.{Result, ok, thrown, error_object}
use advanced_search_api.Auth.{create_key_identifier, presented_key}
use advanced_search_api.Domain.{Number, Product, fraction}
use advanced_search_api.RateLimit.Memory.{RateLimitHit, MemoryStore, new_store, hit}
use advanced_search_api.RateLimit.Options.{resolve_tracker}
use advanced_search_api.Index.Seed.{SeedOutcome, seed_catalog}
use advanced_search_api.Index.Seed.Bounded.{seed_catalog-ends}
use advanced_search_api.Index.Cluster.Budget.{Within}
use advanced_search_api.Index.Adapter.{created}
use advanced_search_api.Index.Mapping.Uses.{IsMapped, uses_of}
use advanced_search_api.Index.Mapping.Resolved.{build_search_request-IsMapped}
use advanced_search_api.Search.Query.Request.{build_search_request}
use advanced_search_api.Search.Controller.{is_valid}
use advanced_search_api.UseCases.Handlers.{autocomplete_is_valid, is_query_text}
use advanced_search_api.Startup.SafetyNet.{logged, closing, exited, closed, installed}
use advanced_search_api.Startup.SafetyNet.Exit.{
  Failure, rejection, exception, run, event_of, line_of, run-exits_once,
}
use advanced_search_api.Startup.Docs.{document, docs_request}
use advanced_search_api.Startup.Docs.Metered.{WithinBudget, docs_request-IsMetered}
use advanced_search_api.Startup.Seed.{RawProduct, load_products, run_seed}
use advanced_search_api.Startup.Seed.Outcome.{Converts, Sorts, run_seed-exits_zero_iff}
use advanced_search_api.LoadTest.{
  seq, cold_search_query, warm_search_query, facet_search_query, browse_query, autocomplete_query,
  suggest_query,
}
use advanced_search_api.LoadTest.Accepted.{workload-IsValid}
use advanced_search_api.Examples.Edge.{plain_crypto, guarded, limits, keyed}
use advanced_search_api.Examples.Data.{made}
use advanced_search_api.Examples.Indices.{fixed_digest, mapped, migrating_adapter}
use advanced_search_api.Examples.Queries.{asked, ranking}

abbrev lost : Failure
lost = rejection (error_object (str "lost")) none

abbrev broken : Failure
broken = exception (error_object (str "broken")) (some (str "at x"))

run-exits_once_example :
    (run (event_of lost ∷ event_of broken ∷ closed (ok tt) ∷ event_of lost ∷ []) installed).acts
    ≡ logged (line_of lost) ∷ closing ∷ exited 1 ∷ []
run-exits_once_example = run-exits_once lost (broken ∷ []) (lost ∷ []) (ok tt)

-- The docs bucket, counted in memory at one second.
abbrev count_in_memory : Text → ℕ → MemoryStore → Result RateLimitHit × MemoryStore
count_in_memory key window s = let (h, s') = hit key window 1000 s in (ok h, s')

docs_request-IsMetered_example :
    ((docs_request plain_crypto count_in_memory guarded limits keyed new_store).1
      ≡ (count_in_memory
          (str "docs:" ++ resolve_tracker keyed (create_key_identifier plain_crypto guarded.keys))
          60000
          new_store).1)
    × (((docs_request plain_crypto count_in_memory guarded limits keyed new_store).0 ≡ document) ↔ (
        WithinBudget limits
          (count_in_memory
            (str "docs:" ++ resolve_tracker keyed (create_key_identifier plain_crypto guarded.keys))
            60000
            new_store).0
        × (is_some
              (create_key_identifier plain_crypto guarded.keys (presented_key keyed.key_header))
            ≡ true)))
docs_request-IsMetered_example =
    docs_request-IsMetered plain_crypto count_in_memory guarded limits keyed new_store refl refl

abbrev nameless : RawProduct
nameless = record {
  id = str "p1";
  name = str " ";
  description = str "A lamp";
  category = str "home";
  subcategories = [];
  location = str "Berlin";
  price = fraction 1999 99;
  popularity = fraction 4 0;
  created_at = str "2024-01-01";
}

abbrev read_date : Text → Option Text
read_date t = some t

abbrev show_number : Number → Text
show_number n = str "19.99"

abbrev all_indexed : List Product → Result SeedOutcome
all_indexed products = ok (record {
  bulk_result = record {
    total = length products;
    indexed = length products;
    failed = 0;
    failures = [];
  };
  preparation = record { action = created; version = 1; replaced_version = none };
  publication = none;
})

abbrev loaded_nameless : List RawProduct
loaded_nameless = nameless ∷ []

abbrev went_well : Result (Unit {0})
went_well = ok tt

-- The context is closed although the use case throws.
abbrev unreachable : List Product → Result SeedOutcome
unreachable products = thrown (error_object (str "ECONNREFUSED"))

closed_all_the_same :
    (run_seed read_date show_number went_well went_well unreachable loaded_nameless).closes ≡ 1
unfolding run_seed
closed_all_the_same = refl

run_seed-exits_zero_iff_example :
    (((run_seed read_date show_number went_well went_well all_indexed loaded_nameless).exit_code
        ≡ 0)
      ↔ (All (Converts read_date show_number) loaded_nameless
          × (went_well ≡ ok tt)
          × (went_well ≡ ok tt)
          × ((o : SeedOutcome) × (all_indexed
                  (load_products read_date show_number loaded_nameless).products
                ≡ ok o)
              × (o.bulk_result.failed ≡ 0))))
    × ((run_seed read_date show_number went_well went_well all_indexed loaded_nameless).exit_code
        ≤ 1)
    × Sorts read_date show_number loaded_nameless
        (load_products read_date show_number loaded_nameless).products
        (load_products read_date show_number loaded_nameless).invalid
    × ((run_seed read_date show_number went_well went_well all_indexed loaded_nameless).closes ≡ 1)
run_seed-exits_zero_iff_example =
    run_seed-exits_zero_iff read_date show_number went_well went_well all_indexed loaded_nameless

seed_catalog-ends_example :
    Within 8 (seed_catalog fixed_digest mapped (made ∷ []) migrating_adapter)
seed_catalog-ends_example = seed_catalog-ends fixed_digest mapped (made ∷ []) migrating_adapter

build_search_request-IsMapped_example :
    All IsMapped (uses_of (build_search_request asked ranking 20 20))
build_search_request-IsMapped_example = build_search_request-IsMapped asked ranking 20 20

workload-IsValid_example :
    (is_valid (cold_search_query (seq 1 2 3)) ≡ true)
    × (is_valid warm_search_query ≡ true)
    × (is_valid (facet_search_query (seq 1 2 3)) ≡ true)
    × (is_valid (browse_query (seq 1 2 3)) ≡ true)
    × (autocomplete_is_valid (autocomplete_query (seq 1 2 3)) ≡ true)
    × (is_query_text (suggest_query (seq 1 2 3)) ≡ true)
workload-IsValid_example = workload-IsValid 1 2 3
