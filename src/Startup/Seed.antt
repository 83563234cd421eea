-- ===== src/Startup/Seed.antt =====
-- src/seed/product-dataset.ts and seed.command.ts: the data set becomes products, and the command
-- reports what the load did.
pub mod Outcome
use advanced_search_api.Base.{
  ℕ, ◌+◌, Text, str, Option, none, some, Bool, true, false, ◌||◌, List, [], ◌∷◌, ◌++◌, map, ltb,
  length, if◌then◌else◌, ◌or◌,
}
use advanced_search_api.Base.Decimal.{to_decimal}
use advanced_search_api.Shared.{LogLine, info, warn, Result, ok, thrown}
use advanced_search_api.Domain.{
  Number, Money, money_of, ProductProps, Product, Violation, empty_id, empty_name, bad_popularity,
  bad_created_at, Created, created, violated, create_product,
}
use advanced_search_api.Index.Bulk.{BulkFailure, BulkResult}
use advanced_search_api.Index.Adapter.{
  PreparationAction, unchanged, created, migrating, IndexPreparation, IndexPublication,
}
use advanced_search_api.Index.Seed.{SeedOutcome}

-- A record of the data set.
pub record RawProduct : Type 0 where
  pub id : Text
  pub name : Text
  pub description : Text
  pub category : Text
  pub subcategories : List Text
  pub location : Text
  pub price : Number
  pub popularity : Number
  pub created_at : Text

pub record InvalidRecord : Type 0 where
  pub id : Option Text
  pub reason : Text

pub record DatasetLoadResult : Type 0 where
  pub products : List Product
  pub invalid : List InvalidRecord

unfoldable pub violation_message : Violation → Text
violation_message empty_id = str "Product id must not be empty"
violation_message empty_name = str "Product name must not be empty"
violation_message bad_popularity = str "Product popularity must be a non-negative integer"
violation_message bad_created_at = str "Product createdAt must be a valid date"

-- A product, or the message of what is thrown.
pub data Converted : Type 0 where
  product : Product → Converted
  rejected : Text → Converted

abbrev of_created : Created → Converted
of_created (Created.created p) = product p
of_created (violated v) = rejected (violation_message v)

-- `date` reads a date as its ISO text, if it is valid; `show` writes a number.
module _ (date : Text → Option Text) (show : Number → Text) where
  abbrev with_price : RawProduct → Option Money → Converted
  with_price r none =
      rejected (str "Money amount must be a non-negative finite number, got: " ++ show r.price)
  with_price r (some money) = of_created (
      create_product (record {
        id = r.id;
        name = r.name;
        description = r.description;
        category = r.category;
        subcategories = r.subcategories;
        location = r.location;
        price = money;
        popularity = r.popularity;
        created_at = date r.created_at;
      }))

  unfoldable pub to_product : RawProduct → Converted
  unfolding money_of create_product violation_message
  to_product r = with_price r (money_of r.price (str "USD"))

  abbrev pub add_converted : RawProduct → Converted → DatasetLoadResult → DatasetLoadResult
  add_converted r (product p) rest = record rest { products = p ∷ rest.products }
  add_converted r (rejected reason) rest = record rest {
    invalid = record { id = some r.id; reason = reason } ∷ rest.invalid;
  }

  unfoldable pub load_products : List RawProduct → DatasetLoadResult
  unfolding to_product
  load_products [] = record { products = []; invalid = [] }
  load_products (r ∷ rs) = add_converted r (to_product r) (load_products rs)

abbrev version_or : Option ℕ → Text
version_or none = str "?"
version_or (some v) = to_decimal v

-- `join(', ')`.
unfoldable pub join_versions : List ℕ → Text
unfolding to_decimal
join_versions [] = []
join_versions (v ∷ []) = to_decimal v
join_versions (v ∷ w ∷ vs) = to_decimal v ++ (str ", " ++ join_versions (w ∷ vs))

abbrev pruned_text : List ℕ → Text
pruned_text [] = []
pruned_text (v ∷ vs) = str " Deleted version(s) " ++ (join_versions (v ∷ vs) ++ str ".")

abbrev migration_text : IndexPreparation → Option IndexPublication → Text
migration_text preparation none =
    str "Definition changed, so version "
    ++ (to_decimal preparation.version
        ++ (str
              " was loaded — but NOT published, because documents failed to index. The alias still serves version "
            ++ (version_or preparation.replaced_version ++ str ".")))
migration_text preparation (some publication) =
    str "Definition changed: migrated to version "
    ++ (to_decimal publication.version
        ++ (str " and moved the alias. Version "
            ++ (version_or publication.retained_version
                ++ (str " is retained for rollback." ++ pruned_text publication.pruned_versions))))

abbrev outcome_text : PreparationAction → IndexPreparation → Option IndexPublication → Text
outcome_text PreparationAction.created preparation publication =
    str "Index created at version " ++ (to_decimal preparation.version ++ str ".")
outcome_text unchanged preparation publication =
    str "Index definition unchanged; still serving version "
    ++ (to_decimal preparation.version ++ str ".")
outcome_text migrating preparation publication = migration_text preparation publication

unfoldable pub describe_index_outcome : SeedOutcome → Text
unfolding to_decimal join_versions
describe_index_outcome o = outcome_text o.preparation.action o.preparation o.publication

-- The command's log so far, the exit code, and how often a context was closed.
pub record SeedRun : Type 0 where
  pub log : List LogLine
  pub exit_code : ℕ
  pub closes : ℕ

abbrev skipped : InvalidRecord → LogLine
skipped r =
    warn (str "Skipping invalid product " ++ ((r.id or str "(no id)") ++ (str ": " ++ r.reason)))

abbrev failed_to_index : BulkFailure → LogLine
failed_to_index f = warn (str "Failed to index " ++ (f.id ++ (str ": " ++ f.reason)))

abbrev seed_complete : BulkResult → LogLine
seed_complete bulk_result = info (
    str "Seed complete: total="
    ++ (to_decimal bulk_result.total
        ++ (str " indexed="
            ++ (to_decimal bulk_result.indexed
                ++ (str " failed=" ++ to_decimal bulk_result.failed)))))

-- The block of the `try`, which is left by what `execute` throws.
abbrev seeded : List InvalidRecord → Result SeedOutcome → SeedRun → Result (Unit {0}) × SeedRun
seeded invalid (thrown e) s = (thrown e, s)
seeded invalid (ok o) s = (
  ok tt,
  record s {
    log =
        s.log
        ++ (info (describe_index_outcome o)
            ∷ seed_complete o.bulk_result
            ∷ map failed_to_index o.bulk_result.failures);
    exit_code = if ltb 0 o.bulk_result.failed || ltb 0 (length invalid) then 1 else s.exit_code;
  },
)

-- What a throw in the `finally` overrides.
abbrev unless_thrown : Result (Unit {0}) → Result (Unit {0}) → Result (Unit {0})
unless_thrown (thrown e) before = thrown e
unless_thrown (ok _) before = before

-- The `finally`: whatever ended the block, the context is closed; `closed` is how that ends.
abbrev finally_close : Result (Unit {0}) → Result (Unit {0}) × SeedRun → Result (Unit {0}) × SeedRun
finally_close closed (before, s) = (unless_thrown closed before, record s { closes = s.closes + 1 })

-- `createApplicationContext` stands before the `try`.
abbrev with_context :
    Result (Unit {0})
    → Result (Unit {0})
    → (SeedRun → Result (Unit {0}) × SeedRun)
    → SeedRun
    → Result (Unit {0}) × SeedRun
with_context (thrown e) closed block s = (thrown e, s)
with_context (ok _) closed block s = finally_close closed (block s)

-- `void runSeed()`: an error that leaves it is an unhandled rejection, by which Node exits with 1.
abbrev unhandled : Result (Unit {0}) × SeedRun → SeedRun
unhandled (thrown e, s) = record s { exit_code = 1 }
unhandled (ok _, s) = s

-- `context` and `closed` are how the creation of the context and its closing end, and `execute` how the
-- use case ends on the products.
unfoldable pub run_seed :
    (Text → Option Text)
    → (Number → Text)
    → Result (Unit {0})
    → Result (Unit {0})
    → (List Product → Result SeedOutcome)
    → List RawProduct
    → SeedRun
unfolding load_products describe_index_outcome
run_seed date show context closed execute records =
    let loaded = load_products date show records in
    unhandled (
      with_context context closed (seeded loaded.invalid (execute loaded.products))
        (record { log = map skipped loaded.invalid; exit_code = 0; closes = 0 }))
