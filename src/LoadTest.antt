-- ===== src/LoadTest.antt =====
-- loadtest/lib/workload.js: the requests of the load test, derived from a counter. A query holds what the
-- service reads from its parameters.
pub mod Accepted
use advanced_search_api.Base.{
  ℕ, ◌+◌, ◌*◌, ◌/◌, ◌%◌, Text, str, Option, none, some, Bool, List, [], ◌∷◌, length, get_elem?,
  ◌==◌, if◌then◌else◌, ◌or◌,
}
use mathlib.Core.Option
use advanced_search_api.Domain.{fraction}
use advanced_search_api.Search.{SortField, relevance, popularity, created_at, SortOrder, asc, desc}
use advanced_search_api.Search.Controller.{SearchQuery}
use advanced_search_api.UseCases.Handlers.{AutocompleteQueryDto}

abbrev pub terms : List Text
terms =
    str "drill"
    ∷ str "hammer"
    ∷ str "wrench"
    ∷ str "grinder"
    ∷ str "headphones"
    ∷ str "monitor"
    ∷ str "keyboard"
    ∷ str "chair"
    ∷ str "desk"
    ∷ str "knife"
    ∷ str "pan"
    ∷ str "coffee"
    ∷ str "mower"
    ∷ str "hose"
    ∷ str "yoga"
    ∷ str "helmet"
    ∷ str "camera"
    ∷ str "speaker"
    ∷ str "printer"
    ∷ str "cordless"
    ∷ []

abbrev pub typos : List Text
typos =
    str "driil"
    ∷ str "hammar"
    ∷ str "wrenc"
    ∷ str "grindar"
    ∷ str "headfones"
    ∷ str "moniter"
    ∷ str "keybord"
    ∷ str "cofee"
    ∷ []

abbrev pub prefixes : List Text
prefixes =
    str "co"
    ∷ str "cor"
    ∷ str "dri"
    ∷ str "ham"
    ∷ str "wre"
    ∷ str "hea"
    ∷ str "mon"
    ∷ str "key"
    ∷ str "des"
    ∷ str "kni"
    ∷ str "yog"
    ∷ []

abbrev pub categories : List Text
categories =
    str "Electronics"
    ∷ str "Furniture"
    ∷ str "Garden"
    ∷ str "Kitchen"
    ∷ str "Office"
    ∷ str "Sports"
    ∷ str "Tools"
    ∷ []

abbrev pub locations : List Text
locations =
    str "Berlin"
    ∷ str "Cologne"
    ∷ str "Frankfurt"
    ∷ str "Hamburg"
    ∷ str "Munich"
    ∷ str "Stuttgart"
    ∷ []

abbrev pub subcategories : List Text
subcategories =
    str "Power Tools"
    ∷ str "Drills"
    ∷ str "Hand Tools"
    ∷ str "Audio"
    ∷ str "Computing"
    ∷ str "Chairs"
    ∷ str "Desks"
    ∷ str "Cookware"
    ∷ str "Knives"
    ∷ str "Fitness"
    ∷ str "Cycling"
    ∷ str "Watering"
    ∷ []

abbrev pub sorts : List SortField
sorts = relevance ∷ popularity ∷ created_at ∷ []

-- The counters are not negative, so `Math.abs` changes nothing.
unfoldable pub seq : ℕ → ℕ → ℕ → ℕ
seq vu iter salt = (vu * 2654435761 + iter * 40503 + salt * 97) % 1000000

-- `none` stands for undefined.
unfoldable pub pick : {A : Type 0} → List A → ℕ → Option A
pick list n = get_elem? list (n % length list)

abbrev no_query : SearchQuery
no_query = record {
  q = none;
  category = none;
  subcategory = none;
  location = none;
  min_price = none;
  max_price = none;
  sort = none;
  order = none;
  page = none;
  page_size = none;
}

-- The counter is below 10^6, so `n >> k` is `n / 2 ^ k`; prices are in cents, over 100.
unfoldable pub cold_search_query : ℕ → SearchQuery
unfolding pick
cold_search_query n = record no_query {
  q = pick terms n;
  min_price = some (fraction (n % 4000) 99);
  sort = pick sorts (n / 4);
  page = some (1 + n % 2);
}

unfoldable pub warm_search_query : SearchQuery
warm_search_query = record no_query {
  q = some (str "drill");
  category = some (str "Tools");
  sort = some relevance;
  page = some 1;
}

-- One subcategory is sent, which the service reads as a list of one.
unfoldable pub facet_search_query : ℕ → SearchQuery
unfolding pick
facet_search_query n = record no_query {
  q = pick terms n;
  category = pick categories n;
  subcategory = Option.map (λ s. s ∷ []) (pick subcategories (n / 2));
  location = pick locations (n / 4);
  min_price = some (fraction (n % 3000) 99);
  max_price = some (fraction 500 0);
}

unfoldable pub browse_query : ℕ → SearchQuery
unfolding pick
browse_query n = record no_query {
  category = pick categories n;
  sort = pick sorts (n / 2);
  order = if n % 2 == 0 then some desc else some asc;
  page = some (1 + n % 3);
  page_size = some 10;
}

unfoldable pub autocomplete_query : ℕ → AutocompleteQueryDto
unfolding pick
autocomplete_query n = record { q = pick prefixes n or []; limit = some 10 }

unfoldable pub suggest_query : ℕ → Text
unfolding pick
suggest_query n = pick typos n or []
