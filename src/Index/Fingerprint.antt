-- ===== src/Index/Fingerprint.antt =====
-- src/infrastructure/elasticsearch/index/index-definition.fingerprint.ts: the digest of an index
-- definition. `digest` stands for the SHA-256 of a value's JSON text, by node:crypto.
pub mod Canonical
pub mod Recorded
use advanced_search_api.Base.{Text, str, Option, none, some, List, [], ◌∷◌, if◌then◌else◌, text_eq}
use advanced_search_api.Base.Sorting.{insert_by, sort_by}
use advanced_search_api.Json.{
  Json, null, bool, num, text, arr, obj, Items, nil, item, Fields, end, field, fields_of, object,
  find, get_field, as_text,
}

abbrev pub fingerprint_meta_key : Text
fingerprint_meta_key = str "definitionFingerprint"

pub record IndexDefinition : Type 0 where
  pub settings : Json
  pub mappings : Fields

abbrev pub key_of : Text × Json → Text
key_of e = e.0

-- Keys are sorted, the order of arrays is kept.
unfoldable mutual
  unfolding sort_by fields_of

  pub canonicalize : Json → Json
  canonicalize null = null
  canonicalize (bool b) = bool b
  canonicalize (num n) = num n
  canonicalize (text t) = text t
  canonicalize (arr xs) = arr (canonical_items xs)
  canonicalize (obj fs) = obj (fields_of (sort_by key_of (canonical_entries fs)))

  pub canonical_items : Items → Items
  canonical_items nil = nil
  canonical_items (item x xs) = item (canonicalize x) (canonical_items xs)

  pub canonical_entries : Fields → List (Text × Json)
  canonical_entries end = []
  canonical_entries (field k v fs) = (k, canonicalize v) ∷ canonical_entries fs

-- `delete copy[key]`, and the assignment of a property: in its place, or at the end.
unfoldable pub remove_field : Text → Fields → Fields
remove_field k end = end
remove_field k (field j v fs) =
    let rest = remove_field k fs in if text_eq j k then rest else field j v rest

unfoldable pub set_field : Text → Json → Fields → Fields
set_field k v end = field k v end
set_field k v (field j w fs) =
    let rest = set_field k v fs in if text_eq j k then field j v fs else field j w rest

-- What spreading an optional object contributes.
unfoldable pub spread : Option Json → Fields
spread none = end
spread (some (obj fs)) = fs
spread (some null) = end
spread (some (bool b)) = end
spread (some (num n)) = end
spread (some (text t)) = end
spread (some (arr xs)) = end

unfoldable pub without_meta : Fields → Fields
without_meta mappings = remove_field (str "_meta") mappings

module _ (digest : Json → Text) where
  unfoldable pub fingerprint_definition : IndexDefinition → Text
  fingerprint_definition d = digest (
      canonicalize (
        obj (
          field (str "settings") d.settings
            (field (str "mappings") (obj (without_meta d.mappings)) end))))

  unfoldable pub with_fingerprint : IndexDefinition → IndexDefinition
  with_fingerprint d = record {
    settings = d.settings;
    mappings =
        set_field (str "_meta")
          (obj (
            set_field fingerprint_meta_key (text (fingerprint_definition d))
              (spread (find (str "_meta") d.mappings))))
          d.mappings;
  }

abbrev recorded_in : Option Json → Option Text
recorded_in none = none
recorded_in (some v) = as_text v

abbrev fingerprint_in : Option Json → Option Text
fingerprint_in none = none
fingerprint_in (some meta) = recorded_in (get_field fingerprint_meta_key meta)

unfoldable pub read_fingerprint : Option Fields → Option Text
read_fingerprint none = none
read_fingerprint (some mappings) = fingerprint_in (find (str "_meta") mappings)
