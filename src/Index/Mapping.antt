-- ===== src/Index/Mapping.antt =====
-- src/infrastructure/elasticsearch/index/product-index.mapping.ts: the settings and mappings of the
-- product index.
pub mod Resolved
pub mod Uses
use advanced_search_api.Base.{ℕ, Text, str, List, [], ◌∷◌, map}
use advanced_search_api.Domain.{fraction}
use advanced_search_api.Json.{Json, num, text, Fields, object, fields_of, array}
use advanced_search_api.Index.Fingerprint.{IndexDefinition}

abbrev texts : List Text → Json
texts ts = array (map text ts)

abbrev number : ℕ → Json
number n = num (fraction n 0)

abbrev analyzer : List Text → Json
analyzer filters = object (
    (str "type", text (str "custom"))
    ∷ (str "tokenizer", text (str "standard"))
    ∷ (str "filter", texts filters)
    ∷ [])

unfoldable pub index_settings : Json
unfolding object array
index_settings = object (
    (
      str "analysis",
      object (
          (
            str "analyzer",
            object (
                (str "text_std", analyzer (str "lowercase" ∷ str "asciifolding" ∷ []))
                ∷ (
                  str "text_en",
                  analyzer (
                      str "lowercase"
                      ∷ str "asciifolding"
                      ∷ str "english_stop"
                      ∷ str "english_stemmer"
                      ∷ []),
                )
                ∷ (
                  str "shingle_analyzer",
                  analyzer (str "lowercase" ∷ str "asciifolding" ∷ str "shingle_2_3" ∷ []),
                )
                ∷ []),
          )
          ∷ (
            str "filter",
            object (
                (
                  str "english_stop",
                  object (
                      (str "type", text (str "stop"))
                      ∷ (str "stopwords", text (str "_english_"))
                      ∷ []),
                )
                ∷ (
                  str "english_stemmer",
                  object (
                      (str "type", text (str "stemmer"))
                      ∷ (str "language", text (str "light_english"))
                      ∷ []),
                )
                ∷ (
                  str "shingle_2_3",
                  object (
                      (str "type", text (str "shingle"))
                      ∷ (str "min_shingle_size", number 2)
                      ∷ (str "max_shingle_size", number 3)
                      ∷ []),
                )
                ∷ []),
          )
          ∷ []),
    )
    ∷ [])

abbrev of_type : Text → Json
of_type t = object ((str "type", text t) ∷ [])

abbrev analyzed : Text → Text → Json
analyzed t a = object ((str "type", text t) ∷ (str "analyzer", text a) ∷ [])

abbrev text_sub_field : Text → Json
text_sub_field a = object ((str "text", analyzed (str "text") a) ∷ [])

abbrev suggest_source : Json
suggest_source = texts (str "suggest_text" ∷ [])

unfoldable pub index_mappings : Fields
unfolding object array fields_of
index_mappings = fields_of (
    (
      str "properties",
      object (
          (str "id", of_type (str "keyword"))
          ∷ (
            str "name",
            object (
                (str "type", text (str "text"))
                ∷ (str "analyzer", text (str "text_en"))
                ∷ (str "copy_to", suggest_source)
                ∷ (
                  str "fields",
                  object (
                      (str "std", analyzed (str "text") (str "text_std"))
                      ∷ (str "kw", of_type (str "keyword"))
                      ∷ (str "suggest", analyzed (str "search_as_you_type") (str "text_std"))
                      ∷ []),
                )
                ∷ []),
          )
          ∷ (str "description", analyzed (str "text") (str "text_en"))
          ∷ (
            str "category",
            object (
                (str "type", text (str "keyword"))
                ∷ (str "copy_to", suggest_source)
                ∷ (str "fields", text_sub_field (str "text_en"))
                ∷ []),
          )
          ∷ (
            str "subcategories",
            object (
                (str "type", text (str "keyword"))
                ∷ (str "copy_to", suggest_source)
                ∷ (str "fields", text_sub_field (str "text_en"))
                ∷ []),
          )
          ∷ (
            str "location",
            object (
                (str "type", text (str "keyword"))
                ∷ (str "fields", text_sub_field (str "text_std"))
                ∷ []),
          )
          ∷ (
            str "price",
            object
                ((str "type", text (str "scaled_float")) ∷ (str "scaling_factor", number 100) ∷ []),
          )
          ∷ (str "popularity", of_type (str "integer"))
          ∷ (str "createdAt", of_type (str "date"))
          ∷ (
            str "suggest_text",
            object (
                (str "type", text (str "text"))
                ∷ (str "analyzer", text (str "text_std"))
                ∷ (
                  str "fields",
                  object ((str "trigram", analyzed (str "text") (str "shingle_analyzer")) ∷ []),
                )
                ∷ []),
          )
          ∷ []),
    )
    ∷ [])

unfoldable pub product_index_definition : IndexDefinition
unfolding index_settings index_mappings
product_index_definition = record { settings = index_settings; mappings = index_mappings }
