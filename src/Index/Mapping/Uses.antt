-- ===== src/Index/Mapping/Uses.antt =====
-- The type that the mapping gives a field, and the fields that a search request names.
use advanced_search_api.Base.{
  Text, str, Option, none, some, Bool, true, false, ◌≡◌, List, [], ◌∷◌, ◌++◌, map, any, text_eq,
  if◌then◌else◌, ◌==◌,
}
use advanced_search_api.Base.Trim.{split}
use advanced_search_api.Json.{Json, Fields, find, get_field, as_text}
use advanced_search_api.Search.Query.{
  FacetDimension, category, subcategories, location, price, Clause, term, terms, price_range,
  FacetAggregations, Aggregation, Counted, values_of, buckets_of, SortKey, by_score, by_popularity,
  by_created_at, by_id,
}
use advanced_search_api.Search.Query.Request.{
  InnerQuery, multi_match, match_all, ScoreFunction, field_value_factor, gauss, SuggestRequest,
  SearchRequest,
}
use advanced_search_api.Index.Mapping.{product_index_definition}

-- The mapping of a field by its path: a property, then its sub-fields.
abbrev pub sub_field : Option Json → Text → Option Json
sub_field none name = none
sub_field (some fields) name = get_field name fields

unfoldable pub descend : List Text → Json → Option Json
unfolding get_field
descend [] field_mapping = some field_mapping
descend (name ∷ names) field_mapping =
    elim (sub_field (get_field (str "fields") field_mapping) name) [
      | none ↦ none
      | some below ↦ descend names below
    ]

abbrev pub below_property : List Text → Option Json → Option Json
below_property names none = none
below_property names (some property) = descend names property

abbrev pub by_path : Fields → List Text → Option Json
by_path mappings [] = none
by_path mappings (name ∷ names) =
    below_property names (sub_field (find (str "properties") mappings) name)

abbrev pub type_of_mapping : Option Json → Option Text
type_of_mapping none = none
type_of_mapping (some field_mapping) = elim (get_field (str "type") field_mapping) [
  | none ↦ none
  | some t ↦ as_text t
]

-- The type of a field of the product index.
unfoldable pub type_of_field : Text → Option Text
unfolding product_index_definition find get_field descend split as_text
type_of_field path = type_of_mapping (by_path product_index_definition.mappings (split b'.' path))

-- A field without its boost.
unfoldable pub without_boost : Text → Text
without_boost [] = []
without_boost (c ∷ s) = if c == b'^' then [] else c ∷ without_boost s

-- A use of a field, with the types that serve it.
pub record FieldUse : Type 0 where
  pub path : Text
  pub types : List Text

abbrev pub full_text : Text → FieldUse
full_text path = record { path = without_boost path; types = str "text" ∷ [] }

abbrev pub exact : Text → FieldUse
exact path = record { path = path; types = str "keyword" ∷ [] }

abbrev pub numeric : Text → FieldUse
numeric path = record { path = path; types = str "integer" ∷ str "scaled_float" ∷ [] }

abbrev pub dated : Text → FieldUse
dated path = record { path = path; types = str "date" ∷ [] }

abbrev pub among : List Text → Option Text → Bool
among types none = false
among types (some t) = any (λ u. text_eq u t) types

abbrev pub IsMapped : FieldUse → Type 0
IsMapped u = among u.types (type_of_field u.path) ≡ true

abbrev pub uses_of_dimension : FacetDimension → FieldUse
uses_of_dimension category = exact (str "category")
uses_of_dimension subcategories = exact (str "subcategories")
uses_of_dimension location = exact (str "location")
uses_of_dimension price = numeric (str "price")

abbrev pub use_of_clause : Clause → FieldUse
use_of_clause (term d t) = uses_of_dimension d
use_of_clause (terms d ts) = uses_of_dimension d
use_of_clause (price_range min max) = numeric (str "price")

abbrev pub use_of_counted : Counted → FieldUse
use_of_counted (values_of d size) = uses_of_dimension d
use_of_counted (buckets_of ranges) = numeric (str "price")

abbrev pub uses_of_aggregation : Aggregation → List FieldUse
uses_of_aggregation a = use_of_counted a.counted ∷ map use_of_clause a.filter

abbrev pub uses_of_facets : FacetAggregations → List FieldUse
uses_of_facets g =
    uses_of_aggregation g.categories
    ++ (uses_of_aggregation g.subcategories
        ++ (uses_of_aggregation g.locations ++ uses_of_aggregation g.price_ranges))

abbrev pub uses_of_inner : InnerQuery → List FieldUse
uses_of_inner (multi_match m) = map full_text m.fields
uses_of_inner match_all = []

abbrev pub use_of_function : ScoreFunction → FieldUse
use_of_function (field_value_factor path modifier factor) = numeric path
use_of_function (gauss path origin scale offset decay) = dated path

abbrev pub uses_of_sort : SortKey → List FieldUse
uses_of_sort (by_score order) = []
uses_of_sort (by_popularity order) = numeric (str "popularity") ∷ []
uses_of_sort (by_created_at order) = dated (str "createdAt") ∷ []
uses_of_sort (by_id order) = exact (str "id") ∷ []

abbrev pub uses_of_sorts : List SortKey → List FieldUse
uses_of_sorts [] = []
uses_of_sorts (k ∷ ks) = uses_of_sort k ++ uses_of_sorts ks

abbrev pub uses_of_suggest : Option SuggestRequest → List FieldUse
uses_of_suggest none = []
uses_of_suggest (some s) = full_text s.phrase_field ∷ full_text s.term_field ∷ []

abbrev pub clauses_in : Option (List Clause) → List Clause
clauses_in none = []
clauses_in (some cs) = cs

-- The fields that a request names: what it matches, scores, filters, counts, suggests and sorts by.
abbrev pub uses_of : SearchRequest → List FieldUse
uses_of r =
    uses_of_inner r.query.inner
    ++ (map use_of_function r.query.functions
        ++ (map use_of_clause (clauses_in r.post_filter)
            ++ (uses_of_facets r.aggregations
                ++ (uses_of_suggest r.suggest ++ uses_of_sorts r.sort))))
