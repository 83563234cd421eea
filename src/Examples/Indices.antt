-- ===== src/Examples/Indices.antt =====
-- Runs of the index.
use advanced_search_api.Base.{
  Text, str, none, some, ◌≡◌, ◌≢◌, refl, List, [], ◌∷◌, ◌++◌, arith, text_eq, every,
}
use advanced_search_api.Base.Decimal.{to_decimal}
use advanced_search_api.Shared.{ok}
use advanced_search_api.Json.{Json, text, end, field, obj}
use advanced_search_api.Index.Version.{physical_index_name, parse_physical_index_version}
use advanced_search_api.Index.Version.RoundTrip.{parse-physical_index_name, parse_leading_zero}
use advanced_search_api.Index.Fingerprint.{
  IndexDefinition, fingerprint_definition, with_fingerprint, without_meta, remove_field,
}
use advanced_search_api.Index.Fingerprint.Canonical.{same, swapped, fingerprint_same}
use advanced_search_api.Index.Cluster.{BulkItem}
use advanced_search_api.Index.Cluster.{answered, done}
use advanced_search_api.Index.Cluster.Calls.{after_mapping}
use advanced_search_api.Index.Adapter.{ok, unchanged}
use advanced_search_api.Index.Adapter.Rerun.{ensure_index-with_fingerprint}
use advanced_search_api.Index.Seed.{seed_catalog}
use advanced_search_api.Index.Seed.Completeness.{LoadsFirst, seed_catalog-LoadsFirst}
use advanced_search_api.Index.Cluster.Calls.{EveryCall, UntilFlip}
use advanced_search_api.Index.Adapter.{Adapter, ensure_index}
use advanced_search_api.Index.Adapter.Publication.{publish_index}
use advanced_search_api.Index.Adapter.Provisioning.{IsProvisioning, ensure_index-Provisions}
use advanced_search_api.Index.Adapter.Publication.Flip.{
  IsFlip, IsPruning, publish_index_flips_first,
}
use advanced_search_api.Examples.Data.{made}

parse-physical_index_name_example :
    parse_physical_index_version (str "products") (physical_index_name (str "products") 12)
    ≡ some 12
unfolding every
parse-physical_index_name_example =
    parse-physical_index_name (str "products") 12 ((λ e. cc), refl) (omega arith)

parse_leading_zero_example :
    (parse_physical_index_version (str "products") (str "products" ++ (str "_v0" ++ to_decimal 2))
      ≡ some 2)
    × (str "products" ++ (str "_v0" ++ to_decimal 2) ≢ physical_index_name (str "products") 2)
unfolding every
parse_leading_zero_example = parse_leading_zero (str "products") 2 ((λ e. cc), refl) (omega arith)

-- The mappings of a definition, in two orders.
abbrev pub mapped : IndexDefinition
mapped = record {
  settings = obj end;
  mappings = field (str "name") (text (str "text")) (field (str "price") (text (str "long")) end);
}

abbrev mapped_otherwise : IndexDefinition
mapped_otherwise = record {
  settings = obj end;
  mappings = field (str "price") (text (str "long")) (field (str "name") (text (str "text")) end);
}

abbrev pub fixed_digest : Json → Text
fixed_digest (text t) = t
fixed_digest _ = str "d41d8cd9"

fingerprint_same_example :
    fingerprint_definition fixed_digest mapped
    ≡ fingerprint_definition fixed_digest mapped_otherwise
unfolding without_meta remove_field text_eq
fingerprint_same_example =
    fingerprint_same fixed_digest mapped mapped_otherwise same
      (swapped (str "name") (str "price") (text (str "text")) (text (str "long")) end refl)

abbrev half_failed : List BulkItem
half_failed =
    record { id = some (str "p1"); reason = none }
    ∷ record { id = some (str "p2"); reason = some (some (str "mapping"), none) }
    ∷ []

abbrev pub migrating_adapter : Adapter
migrating_adapter = record {
  alias = str "products";
  served_version = some 3;
  pending = some (record { version = 4; replaced_version = 3 });
}

ensure_index-Provisions_example :
    EveryCall (IsProvisioning (str "products")) (ensure_index fixed_digest mapped migrating_adapter)
ensure_index-Provisions_example = ensure_index-Provisions fixed_digest mapped migrating_adapter

publish_index_flips_first_example :
    UntilFlip
      (IsFlip (str "products") (record { version = 4; replaced_version = 3 }))
      (IsPruning (str "products") 3)
      (publish_index migrating_adapter)
publish_index_flips_first_example =
    publish_index_flips_first migrating_adapter (record { version = 4; replaced_version = 3 }) refl

seed_catalog-LoadsFirst_example :
    LoadsFirst (seed_catalog fixed_digest mapped (made ∷ []) migrating_adapter)
seed_catalog-LoadsFirst_example =
    seed_catalog-LoadsFirst fixed_digest mapped made [] migrating_adapter

ensure_index-with_fingerprint_example :
    after_mapping (ensure_index fixed_digest mapped migrating_adapter) (
      answered (
        (
          physical_index_name (str "products") 3,
          some (with_fingerprint fixed_digest mapped).mappings,
        )
        ∷ []))
    ≡ done (
      ok (record { action = unchanged; version = 3; replaced_version = none }),
      record migrating_adapter { served_version = some 3; pending = none },
    )
unfolding every
ensure_index-with_fingerprint_example =
    ensure_index-with_fingerprint fixed_digest mapped 3 migrating_adapter ((λ e. cc), refl)
      (omega arith)
