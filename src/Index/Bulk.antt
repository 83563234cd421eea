-- ===== src/Index/Bulk.antt =====
-- src/infrastructure/elasticsearch/index/product-document.ts and product-bulk.ts.
pub mod Summary
use advanced_search_api.Base.{ℕ, ◌-◌, Text, str, Option, none, some, List, [], ◌∷◌, length}
use advanced_search_api.Domain.{Product}
use advanced_search_api.Index.Cluster.{BulkItem, BulkOperation}

-- The price is in cents.
pub record ProductDocument : Type 0 where
  pub id : Text
  pub name : Text
  pub description : Text
  pub category : Text
  pub subcategories : List Text
  pub location : Text
  pub price : ℕ
  pub popularity : ℕ
  pub created_at : Text

unfoldable pub to_product_document : Product → ProductDocument
to_product_document p = record {
  id = p.id;
  name = p.name;
  description = p.description;
  category = p.category;
  subcategories = p.subcategories;
  location = p.location;
  price = p.price.cents;
  popularity = p.popularity;
  created_at = p.created_at;
}

-- An action line and a document line for each product.
unfoldable pub build_bulk_operations : List Product → Text → List (BulkOperation ProductDocument)
unfolding to_product_document
build_bulk_operations [] index = []
build_bulk_operations (p ∷ ps) index =
    record { index = index; id = p.id; document = to_product_document p }
    ∷ build_bulk_operations ps index

pub record BulkFailure : Type 0 where
  pub id : Text
  pub reason : Text

pub record BulkResult : Type 0 where
  pub total : ℕ
  pub indexed : ℕ
  pub failed : ℕ
  pub failures : List BulkFailure

abbrev or_text : Option Text → Text → Text
or_text none t = t
or_text (some s) t = s

abbrev reason_text : Option Text × Option Text → Text
reason_text (reason, kind) = or_text reason (or_text kind (str "unknown error"))

abbrev failure_of :
    Option Text → Option (Option Text × Option Text) → List BulkFailure → List BulkFailure
failure_of id none failures = failures
failure_of id (some e) failures =
    record { id = or_text id (str "unknown"); reason = reason_text e } ∷ failures

unfoldable pub failures_of : List BulkItem → List BulkFailure
failures_of [] = []
failures_of (i ∷ is) = failure_of i.id i.reason (failures_of is)

-- `total - failures.length`; the engine answers one item for each operation, so it is not negative.
unfoldable pub summarize_bulk_response : List BulkItem → ℕ → BulkResult
unfolding failures_of
summarize_bulk_response items total =
    let failures = failures_of items in
    record {
      total = total;
      indexed = total - length failures;
      failed = length failures;
      failures = failures;
    }
