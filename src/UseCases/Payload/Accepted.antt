-- ===== src/UseCases/Payload/Accepted.antt =====
-- What the service caches, it accepts again: the schemas take every answer of the use cases as it is.
use advanced_search_api.Base.{
  ℕ, Text, Option, none, some, ◌≡◌, refl, ap, ◌∙◌, List, [], ◌∷◌, map, All, text_eq,
}
use advanced_search_api.Json.{Json, text, obj, Fields, find, array, items_of}
use advanced_search_api.Domain.{Number, not_finite, negative, fraction}
use advanced_search_api.Search.{
  FacetBucket, Facets, SearchSuggestions, ProductSummary, SearchOutcome,
}
use advanced_search_api.Search.Completion.{AutocompleteItem}
use advanced_search_api.UseCases.Payload.{
  Zod, Parser, parse_items, parse_shape, as_array, as_object, product_summary_schema,
  facet_bucket_schema, price_range_bucket_schema, facets_schema, suggestions_schema,
  search_outcome_schema, autocomplete_item_schema, autocomplete_items_schema,
}
use advanced_search_api.UseCases.Payload.Values.{
  number_json, count_json, texts_json, text_or_null, summary_json, bucket_json, price_range_json,
  facets_json, suggestions_json, outcome_json, completion_json, completions_json, IsFinite,
  IsFiniteScore,
}

-- The parser takes the value as it is.
abbrev pub Takes : Parser → Json → Type 0
Takes parse v = parse (some v) ≡ some (some v)

parse_items-map :
    {A : Type 0} (parse : Parser) (f : A → Json) (xs : List A)
    → All (λ x. Takes parse (f x)) xs
    → parse_items parse (items_of (map f xs)) ≡ some (items_of (map f xs))
unfolding parse_items items_of
parse_items-map parse f [] all = refl
parse_items-map parse f (x ∷ xs) (h, hs) = rw (h, parse_items-map parse f xs hs)

for_each : {A : Type 0} {P : A → Type 0} → ((x : A) → P x) → (xs : List A) → All P xs
for_each h [] = tt
for_each h (x ∷ xs) = (h x, for_each h xs)

module _ (z : Zod) where
  open z use {Schema, z_string, z_number, z_optional, z_nullable, z_array, z_object, safe_parse}

  abbrev pub Accepts : Schema → Json → Type 0
  Accepts s v = Takes (safe_parse s) v

  string_lem : (t : Text) → Accepts z_string (text t)
  string_lem t = z.string_accepts t

  number_lem : (n : Number) → IsFinite n → Accepts z_number (number_json n)
  unfolding number_json
  number_lem not_finite h = absurd h
  number_lem negative h = z.number_accepts_negative
  number_lem (fraction n d) h = z.number_accepts n d

  array_lem :
      {A : Type 0} (s : Schema) (f : A → Json) (xs : List A)
      → All (λ x. Accepts s (f x)) xs
      → Accepts (z_array s) (array (map f xs))
  unfolding array
  array_lem s f xs all =
      z.array_items s (items_of (map f xs)) ∙ ap as_array (parse_items-map (safe_parse s) f xs all)

  texts_lem : (ts : List Text) → Accepts (z_array z_string) (texts_json ts)
  texts_lem ts = array_lem z_string text ts (for_each string_lem ts)

  object_lem :
      (shape : List (Text × Schema)) (fs : Fields)
      → parse_shape (map (λ (k, s). (k, safe_parse s)) shape) fs ≡ some fs
      → Accepts (z_object shape) (obj fs)
  object_lem shape fs h = z.object_shape shape fs ∙ ap as_object h

  bucket_lem : (b : FacetBucket) → Accepts (facet_bucket_schema z) (bucket_json b)
  unfolding facet_bucket_schema bucket_json find parse_shape text_eq
  bucket_lem b = object_lem _ _ (rw (string_lem b.key, z.number_accepts b.count 0))

  range_fields :
      (from to : Option ℕ) (n : ℕ)
      → Accepts
          (price_range_bucket_schema z)
          (price_range_json (record { from = from; to = to; count = n }))
  unfolding price_range_bucket_schema price_range_json find parse_shape text_eq
  range_fields none none n =
      object_lem _ _ (rw (z.optional_undefined z_number, z.number_accepts n 0))
  range_fields none (some b) n = object_lem _ _ (
      rw (
        z.optional_undefined z_number,
        z.optional_defined z_number (count_json b),
        z.number_accepts b 0,
        z.number_accepts n 0,
      ))
  range_fields (some a) none n = object_lem _ _ (
      rw (
        z.optional_undefined z_number,
        z.optional_defined z_number (count_json a),
        z.number_accepts a 0,
        z.number_accepts n 0,
      ))
  range_fields (some a) (some b) n = object_lem _ _ (
      rw (
        z.optional_defined z_number (count_json a),
        z.optional_defined z_number (count_json b),
        z.number_accepts a 0,
        z.number_accepts b 0,
        z.number_accepts n 0,
      ))

  summary_fields :
      (s : ProductSummary) (score : Option Number)
      → IsFiniteScore score
      → Accepts (product_summary_schema z) (summary_json (record s { score = score }))
  unfolding product_summary_schema summary_json find parse_shape text_eq
  summary_fields s none h = object_lem _ _ (
      rw (
        string_lem s.id,
        string_lem s.name,
        string_lem s.description,
        string_lem s.category,
        texts_lem s.subcategories,
        string_lem s.location,
        z.number_accepts s.price 99,
        string_lem s.currency,
        z.number_accepts s.popularity 0,
        string_lem s.created_at,
        z.optional_undefined z_number,
      ))
  summary_fields s (some n) h = object_lem _ _ (
      rw (
        string_lem s.id,
        string_lem s.name,
        string_lem s.description,
        string_lem s.category,
        texts_lem s.subcategories,
        string_lem s.location,
        z.number_accepts s.price 99,
        string_lem s.currency,
        z.number_accepts s.popularity 0,
        string_lem s.created_at,
        z.optional_defined z_number (number_json n),
        number_lem n h,
      ))

  facets_lem : (f : Facets) → Accepts (facets_schema z) (facets_json f)
  unfolding facets_schema facets_json find parse_shape text_eq
  facets_lem f = object_lem _ _ (
      rw (
        array_lem _ bucket_json f.categories (for_each bucket_lem _),
        array_lem _ bucket_json f.subcategories (for_each bucket_lem _),
        array_lem _ bucket_json f.locations (for_each bucket_lem _),
        array_lem _ price_range_json f.price_ranges
            (for_each (λ b. range_fields b.from b.to b.count) _),
      ))

  suggestions_lem : (s : SearchSuggestions) → Accepts (suggestions_schema z) (suggestions_json s)
  unfolding suggestions_schema suggestions_json find parse_shape text_eq
  suggestions_lem s = object_lem _ _ (rw (nullable_lem s.did_you_mean, texts_lem s.related))
    where
      nullable_lem : (o : Option Text) → Accepts (z_nullable z_string) (text_or_null o)
      nullable_lem none = z.nullable_null z_string
      nullable_lem (some t) = z.nullable_text z_string t ∙ string_lem t

  -- An outcome whose scores are finite, as Elasticsearch sends them, passes the schema of cached outcomes
  -- unchanged once it has been written as JSON, so an entry that the service wrote is served again.
  pub search_outcome_schema_accepts :
      (o : SearchOutcome)
      → All (λ s. IsFiniteScore s.score) o.items
      → safe_parse (search_outcome_schema z) (some (outcome_json o)) ≡ some (some (outcome_json o))
  unfolding search_outcome_schema outcome_json find parse_shape text_eq
  search_outcome_schema_accepts o finite = object_lem _ _ (
      rw (
        array_lem _ summary_json o.items (items_lem o.items finite),
        z.number_accepts o.total 0,
        facets_lem o.facets,
        suggestions_lem o.suggestions,
      ))
    where
      items_lem :
          (xs : List ProductSummary)
          → All (λ s. IsFiniteScore s.score) xs
          → All (λ s. Accepts (product_summary_schema z) (summary_json s)) xs
      items_lem [] h = tt
      items_lem (s ∷ xs) (h, hs) = (summary_fields s s.score h, items_lem xs hs)

  -- The same for completions.
  pub autocomplete_items_schema_accepts :
      (items : List AutocompleteItem)
      → All (λ i. IsFinite i.score) items
      → safe_parse (autocomplete_items_schema z) (some (completions_json items))
        ≡ some (some (completions_json items))
  unfolding autocomplete_items_schema completions_json
  autocomplete_items_schema_accepts items finite =
      array_lem _ completion_json items (each items finite)
    where
      completion_lem :
          (i : AutocompleteItem)
          → IsFinite i.score
          → Accepts (autocomplete_item_schema z) (completion_json i)
      completion_lem i h =
          unfold autocomplete_item_schema completion_json find parse_shape text_eq in
          object_lem _ _ (rw (string_lem i.text, number_lem i.score h))

      each :
          (xs : List AutocompleteItem)
          → All (λ i. IsFinite i.score) xs
          → All (λ i. Accepts (autocomplete_item_schema z) (completion_json i)) xs
      each [] h = tt
      each (i ∷ xs) (h, hs) = (completion_lem i h, each xs hs)
