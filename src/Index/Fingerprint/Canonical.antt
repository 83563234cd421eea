-- ===== src/Index/Fingerprint/Canonical.antt =====
-- The order in which the properties of an object are written does not change the canonical form.
use advanced_search_api.Base.{
  Text, ◌≡◌, refl, ap, ◌∙◌, arith, List, ◌∷◌, text_eq, text_eq_iff, false,
}
use mathlib.Core.Path.{ap₂}
use advanced_search_api.Base.Sorting.{insert_by, sort_by, insert_by_comm, text_le_antisym}
use advanced_search_api.Json.{Json, arr, obj, Items, nil, item, Fields, end, field, fields_of}
use advanced_search_api.Index.Fingerprint.{
  IndexDefinition, canonicalize, canonical_items, canonical_entries, key_of, without_meta,
  fingerprint_definition,
}

-- Two values that differ only in the order of properties, at any depth.
mutual
  pub data SameValue : Json → Json → Type 0 where
    same : {v : Json} → SameValue v v
    in_array : {xs ys : Items} → SameItems xs ys → SameValue (arr xs) (arr ys)
    in_object : {fs gs : Fields} → SameFields fs gs → SameValue (obj fs) (obj gs)

  pub data SameItems : Items → Items → Type 0 where
    no_items : SameItems nil nil
    items :
        {v w : Json} {xs ys : Items}
        → SameValue v w
        → SameItems xs ys
        → SameItems (item v xs) (item w ys)

  pub data SameFields : Fields → Fields → Type 0 where
    no_fields : SameFields end end
    fields :
        {v w : Json} {fs gs : Fields} (k : Text)
        → SameValue v w
        → SameFields fs gs
        → SameFields (field k v fs) (field k w gs)
    swapped :
        (k j : Text) (v w : Json) (fs : Fields)
        → text_eq k j ≡ false
        → SameFields (field k v (field j w fs)) (field j w (field k v fs))
    both : {fs gs hs : Fields} → SameFields fs gs → SameFields gs hs → SameFields fs hs

sort_swapped :
    (k j : Text) (v w : Json) (l : List (Text × Json))
    → text_eq k j ≡ false
    → sort_by key_of ((k, v) ∷ (j, w) ∷ l) ≡ sort_by key_of ((j, w) ∷ (k, v) ∷ l)
unfolding sort_by
sort_swapped k j v w l n =
    insert_by_comm key_of (k, v) (j, w) (sort_by key_of l)
      (λ p q. ground (arith, text_le_antisym k j p q, text_eq_iff k j))

mutual
  unfolding canonicalize canonical_items canonical_entries

  canonicalize_same : {v w : Json} → SameValue v w → canonicalize v ≡ canonicalize w
  canonicalize_same same = refl
  canonicalize_same (in_array s) = ap arr (canonical_items_same s)
  canonicalize_same (in_object s) = ap (λ l. obj (fields_of l)) (sorted_entries_same s)

  canonical_items_same : {xs ys : Items} → SameItems xs ys → canonical_items xs ≡ canonical_items ys
  canonical_items_same no_items = refl
  canonical_items_same (items s t) = ap₂ item (canonicalize_same s) (canonical_items_same t)

  sorted_entries_same :
      {fs gs : Fields}
      → SameFields fs gs
      → sort_by key_of (canonical_entries fs) ≡ sort_by key_of (canonical_entries gs)
  sorted_entries_same no_fields = refl
  sorted_entries_same (fields k s t) =
      ap₂ (λ v l. insert_by key_of (k, v) l) (canonicalize_same s) (sorted_entries_same t)
  sorted_entries_same (swapped k j v w fs n) =
      sort_swapped k j (canonicalize v) (canonicalize w) (canonical_entries fs) n
  sorted_entries_same (both s t) = sorted_entries_same s ∙ sorted_entries_same t

-- Two definitions that differ only in the order in which properties are written, at any depth and
-- apart from what `_meta` holds, have one fingerprint, so no migration starts between them.
pub fingerprint_same :
    (digest : Json → Text) (d e : IndexDefinition)
    → SameValue d.settings e.settings
    → SameFields (without_meta d.mappings) (without_meta e.mappings)
    → fingerprint_definition digest d ≡ fingerprint_definition digest e
unfolding fingerprint_definition
fingerprint_same digest d e s m =
    ap digest (canonicalize_same (in_object (fields _ s (fields _ (in_object m) no_fields))))
