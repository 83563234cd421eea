-- ===== src/Json.antt =====
-- JSON values, as index definitions, cached payloads and the bodies of answers hold them.
-- `JSON.stringify` writes a number that is not finite as null.
use advanced_search_api.Domain.{Number}
use advanced_search_api.Base.{Text, Option, none, some, Bool, List, [], ◌∷◌, if◌then◌else◌, text_eq}

mutual
  pub data Json : Type 0 where
    null : Json
    bool : Bool → Json
    num : Number → Json
    text : Text → Json
    arr : Items → Json
    obj : Fields → Json

  pub data Items : Type 0 where
    nil : Items
    item : Json → Items → Items

  pub data Fields : Type 0 where
    end : Fields
    field : Text → Json → Fields → Fields

unfoldable pub fields_of : List (Text × Json) → Fields
fields_of [] = end
fields_of ((k, v) ∷ l) = field k v (fields_of l)

unfoldable pub object : List (Text × Json) → Json
unfolding fields_of
object l = obj (fields_of l)

unfoldable pub items_of : List Json → Items
items_of [] = nil
items_of (v ∷ l) = item v (items_of l)

unfoldable pub array : List Json → Json
unfolding items_of
array l = arr (items_of l)

-- The value of a property, if it is there.
unfoldable pub find : Text → Fields → Option Json
find k end = none
find k (field j v fs) = if text_eq j k then some v else find k fs

unfoldable pub get_field : Text → Json → Option Json
unfolding find
get_field k (obj fs) = find k fs
get_field k null = none
get_field k (bool b) = none
get_field k (num n) = none
get_field k (text t) = none
get_field k (arr xs) = none

unfoldable pub as_text : Json → Option Text
as_text (text t) = some t
as_text null = none
as_text (bool b) = none
as_text (num n) = none
as_text (arr xs) = none
as_text (obj fs) = none
