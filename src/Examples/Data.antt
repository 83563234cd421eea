-- ===== src/Examples/Data.antt =====
-- Runs of the cache and the domain.
use advanced_search_api.Base.{ℕ, ◌+◌, Text, str, none, some, ◌≡◌, refl, List, [], ◌∷◌}
use advanced_search_api.Base.Trim.{trim}
use advanced_search_api.Shared.{Thrown, error_object, ok, thrown, returned}
use advanced_search_api.Cache.{with_jitter, World, Effects, cache_aside, cache_get, load, cache_set}
use advanced_search_api.Cache.FailOpen.{cache_aside_answer, cache_aside_calls}
use advanced_search_api.Cache.Flight.{Loads, Event, arrive, no_loads, start, finish, run}
use advanced_search_api.Cache.Flight.Tracked.{PromiseAt, no_loads-IsTracked, shared_outcome}
use advanced_search_api.Domain.{fraction, ProductProps, Product, create_product, as_count, created}
use advanced_search_api.Index.Adapter.{ok}

-- The cache is away, the search engine answers.
abbrev cache_away : World Text Thrown ℕ
cache_away = record {
  read = thrown (error_object (str "ECONNREFUSED"));
  schema = λ _. none;
  in_progress = none;
  loaded = returned 7;
  written = thrown (error_object (str "ECONNREFUSED"));
  random = 1;
  random_scale = 2;
}

abbrev no_effects : Effects ℕ
no_effects = record { hits = 0; misses = 0; log = []; calls = [] }

cache_aside_answer_example : (cache_aside cache_away (str "k") 60 no_effects).0 ≡ returned 7
cache_aside_answer_example = cache_aside_answer cache_away (str "k") 60 no_effects

cache_aside_calls_example :
    ((cache_aside cache_away (str "k") 60 no_effects).1.calls
      ≡ cache_get (str "k") ∷ load ∷ cache_set (str "k") 7 (with_jitter 1 2 60) ∷ [])
    × ((cache_aside cache_away (str "k") 60 no_effects).1.hits
          + (cache_aside cache_away (str "k") 60 no_effects).1.misses
        ≡ 1)
cache_aside_calls_example = cache_aside_calls cache_away (str "k") 60 no_effects

jittered : with_jitter 3 4 60 ≡ 63
unfolding with_jitter
jittered = refl

abbrev empty : Loads ℕ
empty = no_loads

abbrev arrivals : List (Event ℕ)
arrivals = arrive (str "a") ∷ arrive (str "b") ∷ arrive (str "a") ∷ []

shared_outcome_example :
    ((start (str "a") (run arrivals (start (str "a") empty).1)).0 ≡ (start (str "a") empty).0)
    × ((start (str "a") (run arrivals (start (str "a") empty).1)).1
        ≡ run arrivals (start (str "a") empty).1)
    × PromiseAt
        (start (str "a") empty).0
        (record { key = str "a"; outcome = some (ok 7) })
        (run arrivals
          (finish (start (str "a") empty).0 (ok 7) (run arrivals (start (str "a") empty).1)))
shared_outcome_example =
    shared_outcome (str "a") arrivals arrivals (ok 7) empty no_loads-IsTracked (tt, (tt, (tt, tt)))

abbrev lamp : ProductProps
lamp = record {
  id = str "p1";
  name = str "Lamp";
  description = str "A lamp";
  category = str "home";
  subcategories = str "light" ∷ [];
  location = str "Lima";
  price = record { cents = 1999; currency = str "USD" };
  popularity = fraction 14 1;
  created_at = some (str "2026-01-01T00:00:00.000Z");
}

abbrev pub made : Product
made = record {
  id = str "p1";
  name = str "Lamp";
  description = str "A lamp";
  category = str "home";
  subcategories = str "light" ∷ [];
  location = str "Lima";
  price = record { cents = 1999; currency = str "USD" };
  popularity = 7;
  created_at = str "2026-01-01T00:00:00.000Z";
}

creation : create_product lamp ≡ created made
unfolding create_product trim as_count
creation = refl
