-- ===== src/Examples/Queries.antt =====
-- Runs of the search.
use advanced_search_api.Base.{◌<◌, Text, str, none, some, ◌≡◌, ◌↔◌, refl, List, [], ◌∷◌, All}
use advanced_search_api.Shared.{Result, ok}
use advanced_search_api.Domain.{fraction}
use advanced_search_api.Index.Bulk.{ProductDocument}
use advanced_search_api.Search.{SearchFilters, SearchCriteria, relevance, desc, SearchOutcome}
use advanced_search_api.Search.Query.{
  terms, price_range, category, subcategories, build_filter_clauses, build_facet_aggregations,
}
use advanced_search_api.Search.Query.Request.{RelevanceConfig, SearchRequest}
use advanced_search_api.Search.Query.Facet.{facet_of, own_clauses, widened, facet_of-widened}
use advanced_search_api.Search.Adapter.{
  SearchConfig, SearchResponse, plain_total, nothing_suggested, search, total_hits,
}
use advanced_search_api.Search.Adapter.Window.{request_of, Shows, search_of_page}
use advanced_search_api.Search.Controller.{
  SearchQuery, to_search_criteria, total_pages, one, to_string_array,
}
use advanced_search_api.Search.Completion.{NameHit}
use advanced_search_api.Search.Keys.{NormalCriteria, normalize, build_search_cache_key}
use advanced_search_api.Search.Keys.Sharing.{page_request, ordered, build_search_cache_key_sound}

abbrev pub picked : SearchFilters
picked = record {
  category = some (str "home");
  subcategories = some (str "light" ∷ str "desk" ∷ []);
  location = none;
  min_price = some (fraction 10 0);
  max_price = none;
}

abbrev pub asked : SearchCriteria
asked = record {
  query = some (str "lamp");
  filters = picked;
  sort = relevance;
  order = desc;
  page = 2;
  page_size = 20;
}

-- The facet of the categories counts under the subcategories and the price alone.
facet_filter :
    (facet_of category (build_facet_aggregations picked)).filter
    ≡ terms subcategories (str "light" ∷ str "desk" ∷ [])
      ∷ price_range (some (fraction 10 0)) none
      ∷ []
unfolding build_facet_aggregations
facet_filter = refl

facet_of-widened_example :
    (All (λ _. Unit {0}) (build_filter_clauses picked none) ↔ (
      All (λ _. Unit {0}) (own_clauses category picked)
      × All (λ _. Unit {0}) (facet_of category (build_facet_aggregations picked)).filter))
    × ((facet_of category (build_facet_aggregations picked)).filter
        ≡ build_filter_clauses (widened category picked) none)
facet_of-widened_example = facet_of-widened (λ _. Unit {0}) category picked

abbrev pub limits : SearchConfig
limits = record {
  default_page_size = 20;
  max_page_size = 100;
  suggest_max_hits = 5;
  max_result_window = 10000;
}

abbrev pub ranking : RelevanceConfig
ranking = record {
  popularity_factor = fraction 1 0;
  recency_scale = str "90d";
  recency_decay = fraction 1 1;
}

abbrev pub lamp : ProductDocument
lamp = record {
  id = str "p1";
  name = str "Lamp";
  description = str "A lamp";
  category = str "home";
  subcategories = str "light" ∷ [];
  location = str "Lima";
  price = 1999;
  popularity = 7;
  created_at = str "2026-01-01T00:00:00.000Z";
}

abbrev pub reply : SearchResponse
reply = record {
  total = plain_total 21;
  hits = record { id = some (str "p1"); source = some lamp; score = some (fraction 3 1) } ∷ [];
  aggregations = none;
  suggest = none;
}

abbrev pub engine : SearchRequest → Result SearchResponse
engine _ = ok reply

abbrev pub shown : SearchOutcome
shown = record {
  items =
      record {
        id = str "p1";
        name = str "Lamp";
        description = str "A lamp";
        category = str "home";
        subcategories = str "light" ∷ [];
        location = str "Lima";
        price = 1999;
        currency = str "USD";
        popularity = 7;
        created_at = str "2026-01-01T00:00:00.000Z";
        score = some (fraction 3 1);
      }
      ∷ [];
  total = 21;
  facets = record { categories = []; subcategories = []; locations = []; price_ranges = [] };
  suggestions = record { did_you_mean = none; related = [] };
}

search_of_page_example :
    (q : SearchRequest) × (r : SearchResponse) × (q ≡ request_of limits ranking engine asked)
    × (q.from ≡ 20)
    × (q.size ≡ 20)
    × (engine q ≡ ok r)
    × Shows r.hits shown.items
    × (shown.total ≡ total_hits r.total)
    × (limits.suggest_max_hits < shown.total → shown.suggestions ≡ nothing_suggested)
unfolding search
search_of_page_example = search_of_page limits ranking engine asked shown refl

two_pages : total_pages 21 20 ≡ 2
unfolding total_pages
two_pages = refl

parameter : to_string_array (one (str " light, ,desk")) ≡ str "light" ∷ str "desk" ∷ []
unfolding to_string_array
parameter = refl

abbrev typed : SearchQuery
typed = record {
  q = some (str " lamp ");
  category = some (str "home");
  subcategory = some (str "light" ∷ str "desk" ∷ []);
  location = none;
  min_price = some (fraction 10 0);
  max_price = none;
  sort = none;
  order = none;
  page = some 2;
  page_size = none;
}

criteria_of_typed : to_search_criteria typed limits ≡ asked
unfolding to_search_criteria
criteria_of_typed = refl

abbrev pub name_hits : List NameHit
name_hits =
    record { name = some (str "Lamp"); score = some (fraction 3 0) }
    ∷ record { name = none; score = none }
    ∷ record { name = some (str "Lamp"); score = some (fraction 2 0) }
    ∷ record { name = some (str "Lampshade"); score = none }
    ∷ []

-- A digest of the page and the subcategories alone.
abbrev pub short_digest : NormalCriteria → Text
short_digest n = n.page ∷ n.page_size ∷ []

-- The same search, with the subcategories in another order and an empty location.
abbrev pub asked_otherwise : SearchCriteria
asked_otherwise = record asked {
  filters = record picked {
    subcategories = some (str "desk" ∷ str "light" ∷ []);
    location = some [];
  };
}

build_search_cache_key_sound_example :
    page_request ranking (ordered asked) ≡ page_request ranking (ordered asked_otherwise)
unfolding normalize build_search_cache_key
build_search_cache_key_sound_example =
    build_search_cache_key_sound short_digest ranking asked asked_otherwise (str "0a1b2c3d")
      (λ _. refl) refl
