-- ===== src/UseCases/Payload.antt =====
-- src/application/caching/cached-payload.schema.ts: the shapes that a cached payload must have, over the
-- schemas of zod; and the values of outcomes as JSON, as `JSON.stringify` writes them.
pub mod Values
pub mod Accepted
use advanced_search_api.Base.{ℕ, Text, str, Option, none, some, ◌≡◌, List, [], ◌∷◌, map}
use advanced_search_api.Json.{
  Json, null, bool, num, text, arr, obj, Items, nil, item, Fields, end, field, find, object, array,
  fields_of, items_of,
}
use advanced_search_api.Domain.{Number, not_finite, negative, fraction}
use advanced_search_api.Search.{
  FacetBucket, PriceRangeBucket, Facets, SearchSuggestions, ProductSummary, SearchOutcome,
}
use advanced_search_api.Search.Completion.{AutocompleteItem}

-- What `safeParse` makes of a value, where `none` is undefined: a failure, or the value that it accepts.
abbrev pub Parser : Type 0
Parser = Option Json → Option (Option Json)

abbrev pub cons_item : Option (Option Json) → Option Items → Option Items
cons_item none rest = none
cons_item (some none) rest = none
cons_item (some (some v)) none = none
cons_item (some (some v)) (some vs) = some (item v vs)

-- The items, each parsed.
unfoldable pub parse_items : Parser → Items → Option Items
parse_items parse nil = some nil
parse_items parse (item v vs) = cons_item (parse (some v)) (parse_items parse vs)

abbrev pub cons_field : Text → Option (Option Json) → Option Fields → Option Fields
cons_field k none rest = none
cons_field k (some v) none = none
cons_field k (some none) (some fs) = some fs
cons_field k (some (some v)) (some fs) = some (field k v fs)

-- The properties of a shape, each parsed, without those that are undefined; no other property stays.
unfoldable pub parse_shape : List (Text × Parser) → Fields → Option Fields
unfolding find
parse_shape [] fs = some end
parse_shape ((k, parse) ∷ shape) fs = cons_field k (parse (find k fs)) (parse_shape shape fs)

abbrev pub as_array : Option Items → Option (Option Json)
as_array none = none
as_array (some vs) = some (some (arr vs))

abbrev pub as_object : Option Fields → Option (Option Json)
as_object none = none
as_object (some fs) = some (some (obj fs))

-- zod, as the code uses it, with what it documents of the values that the schemas here accept.
pub record Zod : Type 1 where
  pub Schema : Type 0
  pub z_string : Schema
  pub z_number : Schema
  pub z_optional : Schema → Schema
  pub z_nullable : Schema → Schema
  pub z_array : Schema → Schema
  pub z_object : List (Text × Schema) → Schema
  pub safe_parse : Schema → Parser
  pub string_accepts : (t : Text) → safe_parse z_string (some (text t)) ≡ some (some (text t))
  pub number_accepts :
      (n d : ℕ) → safe_parse z_number (some (num (fraction n d))) ≡ some (some (num (fraction n d)))
  pub number_accepts_negative :
      safe_parse z_number (some (num negative)) ≡ some (some (num negative))
  pub optional_undefined : (s : Schema) → safe_parse (z_optional s) none ≡ some none
  pub optional_defined :
      (s : Schema) (v : Json) → safe_parse (z_optional s) (some v) ≡ safe_parse s (some v)
  pub nullable_null : (s : Schema) → safe_parse (z_nullable s) (some null) ≡ some (some null)
  pub nullable_text :
      (s : Schema) (t : Text)
      → safe_parse (z_nullable s) (some (text t)) ≡ safe_parse s (some (text t))
  pub array_items :
      (s : Schema) (vs : Items)
      → safe_parse (z_array s) (some (arr vs)) ≡ as_array (parse_items (safe_parse s) vs)
  pub object_shape :
      (shape : List (Text × Schema)) (fs : Fields)
      → safe_parse (z_object shape) (some (obj fs))
        ≡ as_object (parse_shape (map (λ (k, s). (k, safe_parse s)) shape) fs)

module _ (z : Zod) where
  open z use {Schema, z_string, z_number, z_optional, z_nullable, z_array, z_object}

  unfoldable pub product_summary_schema : Schema
  product_summary_schema = z_object (
      (str "id", z_string)
      ∷ (str "name", z_string)
      ∷ (str "description", z_string)
      ∷ (str "category", z_string)
      ∷ (str "subcategories", z_array z_string)
      ∷ (str "location", z_string)
      ∷ (str "price", z_number)
      ∷ (str "currency", z_string)
      ∷ (str "popularity", z_number)
      ∷ (str "createdAt", z_string)
      ∷ (str "score", z_optional z_number)
      ∷ [])

  unfoldable pub facet_bucket_schema : Schema
  facet_bucket_schema = z_object ((str "key", z_string) ∷ (str "count", z_number) ∷ [])

  unfoldable pub price_range_bucket_schema : Schema
  price_range_bucket_schema = z_object (
      (str "from", z_optional z_number)
      ∷ (str "to", z_optional z_number)
      ∷ (str "count", z_number)
      ∷ [])

  unfoldable pub facets_schema : Schema
  unfolding facet_bucket_schema price_range_bucket_schema
  facets_schema = z_object (
      (str "categories", z_array facet_bucket_schema)
      ∷ (str "subcategories", z_array facet_bucket_schema)
      ∷ (str "locations", z_array facet_bucket_schema)
      ∷ (str "priceRanges", z_array price_range_bucket_schema)
      ∷ [])

  unfoldable pub suggestions_schema : Schema
  suggestions_schema =
      z_object ((str "didYouMean", z_nullable z_string) ∷ (str "related", z_array z_string) ∷ [])

  unfoldable pub search_outcome_schema : Schema
  unfolding product_summary_schema facets_schema suggestions_schema
  search_outcome_schema = z_object (
      (str "items", z_array product_summary_schema)
      ∷ (str "total", z_number)
      ∷ (str "facets", facets_schema)
      ∷ (str "suggestions", suggestions_schema)
      ∷ [])

  unfoldable pub autocomplete_item_schema : Schema
  autocomplete_item_schema = z_object ((str "text", z_string) ∷ (str "score", z_number) ∷ [])

  unfoldable pub autocomplete_items_schema : Schema
  unfolding autocomplete_item_schema
  autocomplete_items_schema = z_array autocomplete_item_schema
