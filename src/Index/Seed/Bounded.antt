-- ===== src/Index/Seed/Bounded.antt =====
-- However the cluster answers, seeding ends.
use advanced_search_api.Base.{Text, List, ltb}
use advanced_search_api.Json.{Json}
use advanced_search_api.Domain.{Product}
use advanced_search_api.Index.Fingerprint.{IndexDefinition}
use advanced_search_api.Index.Bulk.{BulkResult}
use advanced_search_api.Index.Cluster.Budget.{Within}
use advanced_search_api.Index.Adapter.{
  Adapter, IndexPreparation, ensure_index, bulk_index, refresh_index,
}
use advanced_search_api.Index.Adapter.Budget.{
  EndsWithin, then_within, either_method, ensure_index-within, bulk_index-within,
  refresh_index-within,
}
use advanced_search_api.Index.Adapter.Publication.{publish_index}
use advanced_search_api.Index.Adapter.Publication.Budget.{publish_index-within}
use advanced_search_api.Index.Seed.{seed_catalog, publish_if_complete}

publish_if_complete-within :
    (preparation : IndexPreparation) (result : BulkResult)
    → EndsWithin 2 (publish_if_complete preparation result)
publish_if_complete-within preparation result =
    either_method (ltb 0 result.failed) _ _ 2 (λ s. tt)
      (then_within publish_index _ 2 0 publish_index-within (λ _ s. tt))

-- Seeding ends after at most eight calls of the client and one more for each index name that the
-- cluster lists, whatever it answers, errors and lists of any length included, and whatever the state it
-- starts from.
pub seed_catalog-ends :
    (digest : Json → Text) (base : IndexDefinition) (products : List Product) (s : Adapter)
    → Within 8 (seed_catalog digest base products s)
unfolding seed_catalog
seed_catalog-ends digest base products =
    then_within (ensure_index digest base) _ 4 4 (ensure_index-within digest base) (λ preparation.
      then_within (bulk_index products) _ 1 3 (bulk_index-within products) (λ result.
        then_within refresh_index _ 1 2 refresh_index-within
          (λ _. publish_if_complete-within preparation result)))
