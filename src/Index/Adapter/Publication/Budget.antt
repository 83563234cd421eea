-- ===== src/Index/Adapter/Publication/Budget.antt =====
-- Publishing ends after a bounded number of calls.
use advanced_search_api.Base.{
  ℕ, suc, ◌+◌, ◌≤◌, Text, Option, none, some, List, [], ◌∷◌, length, arith,
}
use advanced_search_api.Index.Version.{parse_physical_index_version}
use advanced_search_api.Index.Cluster.{Reply, answered, failed}
use advanced_search_api.Index.Cluster.Budget.{Within, Within-more, listed}
use advanced_search_api.Index.Adapter.{M, PendingVersion, assign}
use advanced_search_api.Index.Adapter.Budget.{EndsWithin, then_within}
use advanced_search_api.Index.Adapter.Publication.{
  stale_if, stale_indices, delete_all, after_delete, prune_found, prune_older_than, after_flip,
  published_version, publish_from, publish_index, nothing_pending,
}

length-stale_if :
    (retained : ℕ) (name : Text) (v : Option ℕ) (rest : List (Text × ℕ)) (n : ℕ)
    → length rest ≤ n
    → length (stale_if retained name v rest) ≤ suc n
length-stale_if retained name none rest n h = omega arith
length-stale_if retained name (some v) rest n h = ground arith

length-stale_indices :
    (alias : Text) (retained : ℕ) (names : List Text)
    → length (stale_indices alias retained names) ≤ length names
unfolding stale_indices
length-stale_indices alias retained [] = omega arith
length-stale_indices alias retained (name ∷ names) =
    length-stale_if retained name (parse_physical_index_version alias name) _ _
      (length-stale_indices alias retained names)

after_delete-within :
    (rest : M (Unit {0})) (n : ℕ)
    → EndsWithin n rest
    → (r : Reply (Unit {0})) → EndsWithin n (after_delete rest r)
after_delete-within rest n h (answered _) s = h s
after_delete-within rest n h (failed e) s = tt

delete_all-within : (stale : List (Text × ℕ)) → EndsWithin (length stale) (delete_all stale)
unfolding delete_all
delete_all-within [] s = tt
delete_all-within ((name, v) ∷ rest) s = (
  length rest,
  omega arith,
  λ r. after_delete-within (delete_all rest) (length rest) (delete_all-within rest) r s,
)

prune_found-within :
    (retained : ℕ) (r : Reply (List Text)) → EndsWithin (listed r) (prune_found retained r)
prune_found-within retained (failed e) s = tt
prune_found-within retained (answered names) s =
    let stale = stale_indices s.alias retained names in
    Within-more _ (length stale + 0) (length names)
      (then_within (delete_all stale) _ (length stale) 0 (delete_all-within stale) (λ _ t. tt) s)
      (omega (arith, length-stale_indices s.alias retained names))

prune_older_than-within : (retained : ℕ) → EndsWithin 1 (prune_older_than retained)
unfolding prune_older_than
prune_older_than-within retained s = (
  0,
  omega arith,
  λ r. Within-more _ (listed r) (0 + listed r) (prune_found-within retained r s) (omega arith),
)

after_flip-within : (p : PendingVersion) (r : Reply (Unit {0})) → EndsWithin 1 (after_flip p r)
after_flip-within p (failed e) s = tt
after_flip-within p (answered _) s =
    then_within (prune_older_than p.replaced_version) (published_version p) 1 0
      (prune_older_than-within p.replaced_version)
      (λ pruned. then_within (assign (some p.version) none) _ 0 0 (λ t. tt) (λ _ t. tt)) s

publish_from-within : (p : Option PendingVersion) → EndsWithin 2 (publish_from p)
publish_from-within none s = nothing_within s.served_version
  where
    nothing_within : (v : Option ℕ) → Within 2 (nothing_pending v s)
    nothing_within none = tt
    nothing_within (some version) = tt
publish_from-within (some p) s = (1, omega arith, λ r. after_flip-within p r s)

pub publish_index-within : EndsWithin 2 publish_index
unfolding publish_index
publish_index-within s = publish_from-within s.pending s
