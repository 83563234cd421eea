-- ===== src/Index/Fingerprint/Recorded.antt =====
-- The digest of a definition does not depend on the digest recorded in it, and is read back.
use advanced_search_api.Base.{Text, str, some, ◌≡◌, refl, ap, arith, text_eq_refl}
use advanced_search_api.Json.{Json, text, obj, Fields, end, field, find, get_field, as_text}
use advanced_search_api.Index.Fingerprint.{
  IndexDefinition, spread, canonicalize, remove_field, set_field, without_meta,
  fingerprint_definition, with_fingerprint, read_fingerprint, fingerprint_meta_key,
}

remove_field-set_field :
    (k : Text) (v : Json) (fs : Fields) → remove_field k (set_field k v fs) ≡ remove_field k fs
unfolding remove_field set_field
remove_field-set_field k v end = rw (text_eq_refl k)
remove_field-set_field k v (field j w fs) = ground (arith, remove_field-set_field k v fs)

find-set_field : (k : Text) (v : Json) (fs : Fields) → find k (set_field k v fs) ≡ some v
unfolding find set_field
find-set_field k v end = rw (text_eq_refl k)
find-set_field k v (field j w fs) = ground (arith, find-set_field k v fs)

module _ (digest : Json → Text) where
  kept :
      (d : IndexDefinition)
      → fingerprint_definition digest (with_fingerprint digest d) ≡ fingerprint_definition digest d
  unfolding fingerprint_definition with_fingerprint without_meta
  kept d =
      ap
        (λ m. digest (
          canonicalize
            (obj (field (str "settings") d.settings (field (str "mappings") (obj m) end)))))
        (remove_field-set_field (str "_meta") _ d.mappings)

  found :
      (d : IndexDefinition)
      → read_fingerprint (some (with_fingerprint digest d).mappings)
        ≡ some (fingerprint_definition digest d)
  unfolding read_fingerprint with_fingerprint get_field as_text
  found d = rw (find-set_field (str "_meta") _ d.mappings) (
      rw
        (find-set_field fingerprint_meta_key (text (fingerprint_definition digest d))
          (spread (find (str "_meta") d.mappings)))
        refl)

  -- Recording the digest in a definition leaves its digest as it was, and the digest is what is
  -- read back from the mappings of an index that was made from the definition. So an index that was
  -- provisioned from the definition in the code is known as current.
  pub fingerprint-with_fingerprint :
      (d : IndexDefinition)
      → (fingerprint_definition digest (with_fingerprint digest d)
          ≡ fingerprint_definition digest d)
        × (read_fingerprint (some (with_fingerprint digest d).mappings)
            ≡ some (fingerprint_definition digest d))
  fingerprint-with_fingerprint d = (kept d, found d)
