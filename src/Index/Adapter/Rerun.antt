-- ===== src/Index/Adapter/Rerun.antt =====
-- Provisioning again from an unchanged definition.
use advanced_search_api.Base.{ℕ, ◌≤◌, Text, none, some, ◌≡◌, ◌∙◌, ap, [], ◌∷◌, text_eq_refl}
use advanced_search_api.Json.{Json}
use advanced_search_api.Index.Version.{physical_index_name}
use advanced_search_api.Index.Version.RoundTrip.{IsAlias, parse-physical_index_name}
use advanced_search_api.Index.Fingerprint.{
  IndexDefinition, fingerprint_definition, with_fingerprint, read_fingerprint,
}
use advanced_search_api.Index.Fingerprint.Recorded.{fingerprint-with_fingerprint}
use advanced_search_api.Index.Cluster.{answered, done, and_then}
use advanced_search_api.Index.Cluster.Calls.{after_mapping}
use advanced_search_api.Index.Adapter.{
  Adapter, ok, unchanged, continue, live_of, prepare, ensure_index, read_live_index,
}

module _ (digest : Json → Text) (base : IndexDefinition) where
  unchanged_live :
      (version : ℕ) (s : Adapter)
      → prepare digest base
          (some (record {
            version = version;
            fingerprint = read_fingerprint (some (with_fingerprint digest base).mappings);
          }))
          s
        ≡ done (
          ok (record { action = unchanged; version = version; replaced_version = none }),
          record s { served_version = some version; pending = none },
        )
  unfolding prepare and_then
  unchanged_live version s = rw (
    (fingerprint-with_fingerprint digest base).1,
    text_eq_refl (fingerprint_definition digest base),
  )

  -- If the alias points at a version that was provisioned from the definition in the code, `ensureIndex`
  -- makes no call but the one that reads it, finds the version unchanged, and forgets a pending one.
  pub ensure_index-with_fingerprint :
      (version : ℕ) (s : Adapter)
      → IsAlias s.alias
      → 1 ≤ version
      → after_mapping (ensure_index digest base s) (
          answered (
            (physical_index_name s.alias version, some (with_fingerprint digest base).mappings)
            ∷ []))
        ≡ done (
          ok (record { action = unchanged; version = version; replaced_version = none }),
          record s { served_version = some version; pending = none },
        )
  unfolding ensure_index read_live_index and_then
  ensure_index-with_fingerprint version s a p =
      ap
        (λ o.
          and_then (live_of s.alias o (some (with_fingerprint digest base).mappings) s)
            (continue (prepare digest base)))
        (parse-physical_index_name s.alias version a p)
      ∙ unchanged_live version s
