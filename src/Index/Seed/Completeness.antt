-- ===== src/Index/Seed/Completeness.antt =====
-- A load that is not complete is not published.
use advanced_search_api.Base.{
  ℕ, ◌<◌, Text, Option, none, Option-cases, inl, inr, ◌⊎◌, ◌≢◌, Bool, List, [], ◌∷◌, length, lt→ltb,
  arith,
}
use advanced_search_api.Json.{Json, Fields}
use advanced_search_api.Domain.{Product}
use advanced_search_api.Index.Fingerprint.{IndexDefinition}
use advanced_search_api.Index.Cluster.{
  ClientError, Reply, answered, failed, BulkItem, Program, done, get_mapping, create, exists_alias,
  put_alias, update_aliases, get_indices, delete_index, bulk, refresh, count, and_then,
}
use advanced_search_api.Index.Cluster.Calls.{
  Call, reads, creates, attaches, flips, deletes, EveryCall,
}
use advanced_search_api.Index.Bulk.{BulkResult, failures_of, summarize_bulk_response}
use advanced_search_api.Index.Adapter.{
  Adapter, Outcome, ok, thrown, P, IndexPreparation, continue, settle, ensure_index, bulk_index,
  refresh_index, ◌>>=◌, ◌>>◌,
}
use advanced_search_api.Index.Adapter.Provisioning.{IsProvisioning, ensure_index-Provisions}
use advanced_search_api.Index.Seed.{SeedOutcome, publish_if_complete, seed_catalog}

-- A call that neither moves an alias off an index nor deletes one.
abbrev pub IsLoading : Call → Type 0
IsLoading (flips _) = ⊥
IsLoading (deletes _) = ⊥
IsLoading _ = Unit

-- A call that changes nothing; a refresh counts as one.
abbrev pub IsReading : Call → Type 0
IsReading reads = Unit
IsReading _ = ⊥

-- An item of the answer to a bulk request has an error.
abbrev pub HasError : List BulkItem → Type 0
HasError [] = ⊥
HasError (i ∷ is) = (i.reason ≢ none) ⊎ HasError is

-- No alias is moved off an index and nothing is deleted up to the bulk request, and behind it nothing is
-- changed at all if it fails or an item of its answer has an error.
abbrev pub LoadsFirst : {D A : Type 0} → Program D A → Type 0
LoadsFirst (done a) = Unit
LoadsFirst (get_mapping x k) =
    IsLoading reads × ((r : Reply (List (Text × Option Fields))) → LoadsFirst (k r))
LoadsFirst (create x d a k) = IsLoading (creates x a) × ((r : Reply (Unit {0})) → LoadsFirst (k r))
LoadsFirst (exists_alias x k) = IsLoading reads × ((r : Reply Bool) → LoadsFirst (k r))
LoadsFirst (put_alias x a k) =
    IsLoading (attaches x a) × ((r : Reply (Unit {0})) → LoadsFirst (k r))
LoadsFirst (update_aliases xs k) =
    IsLoading (flips xs) × ((r : Reply (Unit {0})) → LoadsFirst (k r))
LoadsFirst (get_indices x k) = IsLoading reads × ((r : Reply (List Text)) → LoadsFirst (k r))
LoadsFirst (delete_index x k) = IsLoading (deletes x) × ((r : Reply (Unit {0})) → LoadsFirst (k r))
LoadsFirst (bulk xs k) =
    ((e : ClientError) → EveryCall IsReading (k (failed e)))
    × ((items : List BulkItem) → HasError items → EveryCall IsReading (k (answered items)))
LoadsFirst (refresh x k) = IsLoading reads × ((r : Reply (Unit {0})) → LoadsFirst (k r))
LoadsFirst (count x k) = IsLoading reads × ((r : Reply ℕ) → LoadsFirst (k r))

module _ {D A B : Type 0} (alias : Text) where
  LoadsFirst-and_then :
      (p : Program D A) (f : A → Program D B)
      → EveryCall (IsProvisioning alias) p
      → ((a : A) → LoadsFirst (f a))
      → LoadsFirst (and_then p f)
  unfolding and_then
  LoadsFirst-and_then (done a) f h g = g a
  LoadsFirst-and_then (get_mapping x k) f (c, h) g = (tt, λ r. LoadsFirst-and_then (k r) f (h r) g)
  LoadsFirst-and_then (create x d a k) f (c, h) g = (tt, λ r. LoadsFirst-and_then (k r) f (h r) g)
  LoadsFirst-and_then (exists_alias x k) f (c, h) g = (tt, λ r. LoadsFirst-and_then (k r) f (h r) g)
  LoadsFirst-and_then (put_alias x a k) f (c, h) g = (tt, λ r. LoadsFirst-and_then (k r) f (h r) g)
  LoadsFirst-and_then (update_aliases xs k) f (c, h) g = absurd c
  LoadsFirst-and_then (get_indices x k) f (c, h) g = (tt, λ r. LoadsFirst-and_then (k r) f (h r) g)
  LoadsFirst-and_then (delete_index x k) f (c, h) g = absurd c
  LoadsFirst-and_then (bulk xs k) f (c, h) g = absurd c
  LoadsFirst-and_then (refresh x k) f (c, h) g = (tt, λ r. LoadsFirst-and_then (k r) f (h r) g)
  LoadsFirst-and_then (count x k) f (c, h) g = (tt, λ r. LoadsFirst-and_then (k r) f (h r) g)

failures_of-HasError : (is : List BulkItem) → HasError is → 0 < length (failures_of is)
unfolding failures_of
failures_of-HasError [] h = absurd h
failures_of-HasError (i ∷ is) (inl error) = elim (Option-cases i.reason) [
  | inl e ↦ absurd (error e)
  | inr (r, e) ↦ rw e (omega arith)
]
failures_of-HasError (i ∷ is) (inr later) = elim (Option-cases i.reason) [
  | inl e ↦ rw e (failures_of-HasError is later)
  | inr (r, e) ↦ rw e (omega arith)
]

summarize-HasError :
    (items : List BulkItem) (total : ℕ)
    → HasError items
    → 0 < (summarize_bulk_response items total).failed
unfolding summarize_bulk_response
summarize-HasError items total h = failures_of-HasError items h

-- A result with failures ends the run.
incomplete_quiet :
    (preparation : IndexPreparation) (result : BulkResult) (s : Adapter)
    → 0 < result.failed
    → EveryCall IsReading (publish_if_complete preparation result s)
incomplete_quiet preparation result s h = rw (lt→ltb 0 result.failed h) tt

refreshed_quiet :
    (preparation : IndexPreparation) (result : BulkResult) (s : Adapter) (r : Reply (Unit {0}))
    → 0 < result.failed
    → EveryCall IsReading
        (and_then (settle r s) (continue (λ _. publish_if_complete preparation result)))
unfolding and_then
refreshed_quiet preparation result s (answered _) h = incomplete_quiet preparation result s h
refreshed_quiet preparation result s (failed e) h = tt

-- What follows a preparation of the index.
abbrev loading :
    List Product → Outcome IndexPreparation × Adapter → P (Outcome SeedOutcome × Adapter)
loading products = continue (λ preparation.
    bulk_index products >>= λ result. refresh_index >> publish_if_complete preparation result)

loading-LoadsFirst :
    (p : Product) (ps : List Product) (o : Outcome IndexPreparation × Adapter)
    → LoadsFirst (loading (p ∷ ps) o)
unfolding and_then bulk_index refresh_index
loading-LoadsFirst p ps (ok preparation, s) = (
  (λ e. tt),
  (λ items h. (
    tt,
    λ r.
        refreshed_quiet preparation (summarize_bulk_response items (length (p ∷ ps))) s r
          (summarize-HasError items (length (p ∷ ps)) h),
  )),
)
loading-LoadsFirst p ps (thrown e, s) = tt

-- Whatever the cluster answers: up to its bulk request, a seed of at least one product asks for no
-- update of aliases and deletes no index; and if that request fails, or an item of its answer has an
-- error, whichever one, nothing behind it writes, creates, deletes or touches an alias.
pub seed_catalog-LoadsFirst :
    (digest : Json → Text) (base : IndexDefinition) (p : Product) (ps : List Product) (s : Adapter)
    → LoadsFirst (seed_catalog digest base (p ∷ ps) s)
unfolding seed_catalog
seed_catalog-LoadsFirst digest base p ps s =
    LoadsFirst-and_then s.alias (ensure_index digest base s) (loading (p ∷ ps))
      (ensure_index-Provisions digest base s) (loading-LoadsFirst p ps)
