-- ===== src/UseCases/Payload/Values.antt =====
-- The answers of the use cases as the JSON that is cached: `JSON.stringify` leaves out what is undefined
-- and writes a number that is not finite as null.
use advanced_search_api.Base.{ℕ, Text, str, Option, none, some, List, map}
use advanced_search_api.Json.{Json, null, num, text, obj, Fields, end, field, array}
use advanced_search_api.Domain.{Number, not_finite, negative, fraction}
use advanced_search_api.Search.{
  FacetBucket, PriceRangeBucket, Facets, SearchSuggestions, ProductSummary, SearchOutcome,
}
use advanced_search_api.Search.Completion.{AutocompleteItem}

unfoldable pub number_json : Number → Json
number_json not_finite = null
number_json negative = num negative
number_json (fraction n d) = num (fraction n d)

abbrev pub count_json : ℕ → Json
count_json n = num (fraction n 0)

-- The price is in cents.
abbrev pub cents_json : ℕ → Json
cents_json cents = num (fraction cents 99)

abbrev pub texts_json : List Text → Json
texts_json ts = array (map text ts)

abbrev pub text_or_null : Option Text → Json
text_or_null none = null
text_or_null (some t) = text t

-- A property that may be undefined, before the others.
abbrev pub defined_field : {A : Type 0} → Text → (A → Json) → Option A → Fields → Fields
defined_field k f none rest = rest
defined_field k f (some a) rest = field k (f a) rest

unfoldable pub summary_json : ProductSummary → Json
unfolding number_json array
summary_json s = obj (
    field (str "id") (text s.id) (
      field (str "name") (text s.name) (
        field (str "description") (text s.description) (
          field (str "category") (text s.category) (
            field (str "subcategories") (texts_json s.subcategories) (
              field (str "location") (text s.location) (
                field (str "price") (cents_json s.price) (
                  field (str "currency") (text s.currency) (
                    field (str "popularity") (count_json s.popularity) (
                      field (str "createdAt") (text s.created_at)
                        (defined_field (str "score") number_json s.score end)))))))))))

unfoldable pub bucket_json : FacetBucket → Json
bucket_json b = obj (field (str "key") (text b.key) (field (str "count") (count_json b.count) end))

unfoldable pub price_range_json : PriceRangeBucket → Json
price_range_json b = obj (
    defined_field (str "from") count_json b.from
      (defined_field (str "to") count_json b.to (field (str "count") (count_json b.count) end)))

unfoldable pub facets_json : Facets → Json
unfolding bucket_json price_range_json array
facets_json f = obj (
    field (str "categories") (array (map bucket_json f.categories)) (
      field (str "subcategories") (array (map bucket_json f.subcategories)) (
        field (str "locations") (array (map bucket_json f.locations))
          (field (str "priceRanges") (array (map price_range_json f.price_ranges)) end))))

unfoldable pub suggestions_json : SearchSuggestions → Json
unfolding array
suggestions_json s = obj (
    field (str "didYouMean") (text_or_null s.did_you_mean)
      (field (str "related") (texts_json s.related) end))

unfoldable pub outcome_json : SearchOutcome → Json
unfolding summary_json facets_json suggestions_json array
outcome_json o = obj (
    field (str "items") (array (map summary_json o.items)) (
      field (str "total") (count_json o.total) (
        field (str "facets") (facets_json o.facets)
          (field (str "suggestions") (suggestions_json o.suggestions) end))))

unfoldable pub completion_json : AutocompleteItem → Json
unfolding number_json
completion_json i =
    obj (field (str "text") (text i.text) (field (str "score") (number_json i.score) end))

unfoldable pub completions_json : List AutocompleteItem → Json
unfolding completion_json array
completions_json items = array (map completion_json items)

-- The numbers that Elasticsearch sends are finite.
abbrev pub IsFinite : Number → Type 0
IsFinite not_finite = ⊥
IsFinite negative = Unit
IsFinite (fraction n d) = Unit

abbrev pub IsFiniteScore : Option Number → Type 0
IsFiniteScore none = Unit
IsFiniteScore (some n) = IsFinite n
