-- ===== src/Index/Cluster.antt =====
-- Elasticsearch as the index code uses it: a program is a tree of the client's calls, each followed by
-- what the program does with any answer. The cluster itself is not modelled. The tests on errors are
-- src/infrastructure/elasticsearch/es-errors.ts.
pub mod Budget
pub mod Calls
use advanced_search_api.Base.{
  ℕ, Text, str, Option, none, some, Bool, true, false, ◌||◌, List, ◌==◌, text_eq,
}
use advanced_search_api.Json.{Json, Fields, get_field, as_text}
use advanced_search_api.Index.Fingerprint.{IndexDefinition}

-- What a call of the client throws: the engine's answer with its status and body, or another error.
pub data ClientError : Type 0 where
  response_error : Option ℕ → Json → ClientError
  other_error : ClientError

pub data Reply (A : Type 0) : Type 0 where
  answered : A → Reply A
  failed : ClientError → Reply A

abbrev field_text : Option Json → Option Text
field_text none = none
field_text (some v) = as_text v

abbrev type_in : Option Json → Option Text
type_in none = none
type_in (some e) = field_text (get_field (str "type") e)

unfoldable pub extract_error_type : Json → Option Text
unfolding get_field as_text
extract_error_type body = type_in (get_field (str "error") body)

abbrev is_type : Text → Option Text → Bool
is_type t none = false
is_type t (some u) = text_eq u t

unfoldable pub is_already_exists_error : ClientError → Bool
unfolding extract_error_type
is_already_exists_error other_error = false
is_already_exists_error (response_error status body) =
    is_type (str "resource_already_exists_exception") (extract_error_type body)

abbrev is_404 : Option ℕ → Bool
is_404 none = false
is_404 (some status) = status == 404

unfoldable pub is_index_not_found_error : ClientError → Bool
unfolding extract_error_type
is_index_not_found_error other_error = false
is_index_not_found_error (response_error status body) =
    is_type (str "index_not_found_exception") (extract_error_type body) || is_404 status

pub data AliasAction : Type 0 where
  add remove : Text → Text → AliasAction

-- One item of a bulk answer: the `_id`, and for a failure the reason and the type of its error.
pub record BulkItem : Type 0 where
  pub id : Option Text
  pub reason : Option (Option Text × Option Text)

-- One document of a bulk request: the index, the `_id`, and the document.
pub record BulkOperation (D : Type 0) : Type 0 where
  pub index : Text
  pub id : Text
  pub document : D

-- A program that calls the client, with what it returns. `create` has the alias to attach, if any.
pub data Program (D A : Type 0) : Type 0 where
  done : A → Program D A
  get_mapping : Text → (Reply (List (Text × Option Fields)) → Program D A) → Program D A
  create : Text → IndexDefinition → Option Text → (Reply (Unit {0}) → Program D A) → Program D A
  exists_alias : Text → (Reply Bool → Program D A) → Program D A
  put_alias : Text → Text → (Reply (Unit {0}) → Program D A) → Program D A
  update_aliases : List AliasAction → (Reply (Unit {0}) → Program D A) → Program D A
  get_indices : Text → (Reply (List Text) → Program D A) → Program D A
  delete_index : Text → (Reply (Unit {0}) → Program D A) → Program D A
  bulk : List (BulkOperation D) → (Reply (List BulkItem) → Program D A) → Program D A
  refresh : Text → (Reply (Unit {0}) → Program D A) → Program D A
  count : Text → (Reply ℕ → Program D A) → Program D A

module _ {D A B : Type 0} where
  unfoldable pub and_then : Program D A → (A → Program D B) → Program D B
  and_then (done a) f = f a
  and_then (get_mapping x k) f = get_mapping x (λ r. and_then (k r) f)
  and_then (create x d a k) f = create x d a (λ r. and_then (k r) f)
  and_then (exists_alias x k) f = exists_alias x (λ r. and_then (k r) f)
  and_then (put_alias x a k) f = put_alias x a (λ r. and_then (k r) f)
  and_then (update_aliases x k) f = update_aliases x (λ r. and_then (k r) f)
  and_then (get_indices x k) f = get_indices x (λ r. and_then (k r) f)
  and_then (delete_index x k) f = delete_index x (λ r. and_then (k r) f)
  and_then (bulk x k) f = bulk x (λ r. and_then (k r) f)
  and_then (refresh x k) f = refresh x (λ r. and_then (k r) f)
  and_then (count x k) f = count x (λ r. and_then (k r) f)
