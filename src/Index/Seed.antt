-- ===== src/Index/Seed.antt =====
-- src/application/use-cases/seed-catalog.use-case.ts: provision, load, and publish a complete load.

pub mod Bounded
pub mod Completeness
use advanced_search_api.Base.{Text, Option, none, some, List, ltb, if◌then◌else◌}
use advanced_search_api.Json.{Json}
use advanced_search_api.Domain.{Product}
use advanced_search_api.Index.Fingerprint.{IndexDefinition}
use advanced_search_api.Index.Bulk.{BulkResult}
use advanced_search_api.Index.Adapter.{
  IndexPreparation, IndexPublication, M, pure, ◌>>=◌, ◌>>◌, ensure_index, bulk_index, refresh_index,
}
use advanced_search_api.Index.Adapter.Publication.{publish_index}

pub record SeedOutcome : Type 0 where
  pub bulk_result : BulkResult
  pub preparation : IndexPreparation
  pub publication : Option IndexPublication

abbrev pub publish_if_complete : IndexPreparation → BulkResult → M SeedOutcome
publish_if_complete preparation result =
    if ltb 0 result.failed
    then pure (record { bulk_result = result; preparation = preparation; publication = none })
    else (publish_index >>= λ publication. pure (record {
      bulk_result = result;
      preparation = preparation;
      publication = some publication;
    }))

unfoldable pub seed_catalog : (Json → Text) → IndexDefinition → List Product → M SeedOutcome
unfolding ensure_index bulk_index refresh_index publish_index
seed_catalog digest base products = do
  preparation ← ensure_index digest base
  result ← bulk_index products
  refresh_index
  publish_if_complete preparation result
