-- ===== src/Index/Adapter/Publication.antt =====
-- src/infrastructure/elasticsearch/index/product-index.adapter.ts: `publishIndex` and `pruneOlderThan`.
pub mod Budget
pub mod Flip
use advanced_search_api.Base.{
  ℕ, zero, suc, ◌+◌, Text, str, Option, none, some, Bool, true, false, List, [], ◌∷◌, ◌++◌, map,
  length, leb, ltb, if◌then◌else◌, text_eq,
}
use advanced_search_api.Json.{Json, Fields}
use advanced_search_api.Domain.{Product}
use advanced_search_api.Index.Version.{
  physical_index_name, parse_physical_index_version, next_physical_version,
}
use advanced_search_api.Index.Fingerprint.{
  IndexDefinition, fingerprint_definition, with_fingerprint, read_fingerprint,
}
use advanced_search_api.Index.Cluster.{
  ClientError, Reply, answered, failed, AliasAction, add, remove, BulkItem, BulkOperation, Program,
  done, get_mapping, create, exists_alias, put_alias, update_aliases, get_indices, delete_index,
  bulk, refresh, count, and_then, is_already_exists_error, is_index_not_found_error,
}
use advanced_search_api.Index.Bulk.{
  ProductDocument, BulkResult, build_bulk_operations, summarize_bulk_response,
}
use advanced_search_api.Index.Adapter.{
  IndexPreparation, Failure, throw, settle, M, continue, Adapter, MigrationError, Outcome,
  PendingVersion, IndexPublication, ◌>>=◌, ◌>>◌, pure, P, assign, ok, thrown, client_failure,
  migration_failure, not_prepared, ambiguous_alias,
}

-- The indices whose name has a version below the one to keep.
abbrev stale_if : ℕ → Text → Option ℕ → List (Text × ℕ) → List (Text × ℕ)
stale_if retained name none rest = rest
stale_if retained name (some v) rest = if ltb v retained then (name, v) ∷ rest else rest

unfoldable pub stale_indices : Text → ℕ → List Text → List (Text × ℕ)
unfolding parse_physical_index_version
stale_indices alias retained [] = []
stale_indices alias retained (name ∷ names) =
    stale_if retained name (parse_physical_index_version alias name)
      (stale_indices alias retained names)

unfoldable pub insert_number : ℕ → List ℕ → List ℕ
insert_number n [] = n ∷ []
insert_number n (m ∷ ms) = let rest = insert_number n ms in if leb n m then n ∷ m ∷ ms else m ∷ rest

unfoldable pub sort_numbers : List ℕ → List ℕ
unfolding insert_number
sort_numbers [] = []
sort_numbers (n ∷ ns) = insert_number n (sort_numbers ns)

abbrev after_delete : M (Unit {0}) → Reply (Unit {0}) → M (Unit {0})
after_delete rest (answered _) s = rest s
after_delete rest (failed e) s = throw (client_failure e) s

-- The loop that deletes the stale indices, one after the other; a failure ends it.
unfoldable pub delete_all : List (Text × ℕ) → M (Unit {0})
delete_all [] s = pure tt s
delete_all ((name, v) ∷ rest) s = delete_index name (λ r. after_delete (delete_all rest) r s)

abbrev prune_found : ℕ → Reply (List Text) → M (List ℕ)
prune_found retained (failed e) s = throw (client_failure e) s
prune_found retained (answered names) s =
    let stale = stale_indices s.alias retained names in
    (delete_all stale >>= λ _. pure (sort_numbers (map (λ i. i.1) stale))) s

unfoldable pub prune_older_than : ℕ → M (List ℕ)
unfolding stale_indices delete_all sort_numbers
prune_older_than retained s = get_indices (s.alias ++ str "_v*") (λ r. prune_found retained r s)

-- The two actions of one request: the alias leaves the replaced version and joins the new one.
abbrev pub flip : Text → PendingVersion → List AliasAction
flip alias p =
    remove (physical_index_name alias p.replaced_version) alias
    ∷ add (physical_index_name alias p.version) alias
    ∷ []

abbrev published_version : PendingVersion → List ℕ → M IndexPublication
published_version p pruned = do
  assign (some p.version) none
  pure (record {
    published = true;
    version = p.version;
    retained_version = some p.replaced_version;
    pruned_versions = pruned;
  })

abbrev after_flip : PendingVersion → Reply (Unit {0}) → M IndexPublication
after_flip p (failed e) s = throw (client_failure e) s
after_flip p (answered _) s = (prune_older_than p.replaced_version >>= published_version p) s

abbrev nothing_pending : Option ℕ → M IndexPublication
nothing_pending none = throw (migration_failure not_prepared)
nothing_pending (some version) =
    pure (record {
      published = false;
      version = version;
      retained_version = none;
      pruned_versions = [];
    })

abbrev publish_from : Option PendingVersion → M IndexPublication
publish_from none s = nothing_pending s.served_version s
publish_from (some p) s = update_aliases (flip s.alias p) (λ r. after_flip p r s)

unfoldable pub publish_index : M IndexPublication
unfolding and_then prune_older_than
publish_index s = publish_from s.pending s
