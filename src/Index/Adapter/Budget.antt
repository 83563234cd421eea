-- ===== src/Index/Adapter/Budget.antt =====
-- However the cluster answers, the adapter's methods end after a bounded number of calls.
use advanced_search_api.Base.{
  ℕ, ◌+◌, Text, Option, none, some, Bool, true, false, List, [], ◌∷◌, length, arith, if◌then◌else◌,
}
use advanced_search_api.Json.{Json, Fields}
use advanced_search_api.Domain.{Product}
use advanced_search_api.Index.Fingerprint.{
  IndexDefinition, fingerprint_definition, with_fingerprint,
}
use advanced_search_api.Index.Version.{
  parse_physical_index_version, physical_index_name, next_physical_version,
}
use advanced_search_api.Index.Cluster.{
  Reply, answered, failed, BulkItem, exists_alias, is_already_exists_error,
  is_index_not_found_error,
}
use advanced_search_api.Index.Cluster.Budget.{Within, Within-and_then}
use advanced_search_api.Index.Adapter.{
  P, M, Outcome, Adapter, ok, thrown, ◌>>=◌, continue, throw, pure, settle, LiveIndex, live_of,
  live_entries, read_live_index, repair_alias, after_initial, create_initial_index, after_pending,
  create_pending_index, prepare, ensure_index, bulk_index, summarized, refresh_index,
  same_fingerprint, assign, assign_served, client_failure, migration_failure, migration_in_flight,
}

-- The method makes `n` calls at most, and one more for each name that a listing is answered with.
abbrev pub EndsWithin : {A : Type 0} → ℕ → M A → Type 0
EndsWithin n m = (s : Adapter) → Within n (m s)

pub then_within :
    {A B : Type 0} (m : M A) (f : A → M B) (n k : ℕ)
    → EndsWithin n m
    → ((a : A) → EndsWithin k (f a))
    → EndsWithin (n + k) (m >>= f)
then_within m f n k h g s = Within-and_then (continue f) k continued (m s) n (h s)
  where
    continued : (o : Outcome _ × Adapter) → Within k (continue f o)
    continued (ok a, t) = g a t
    continued (thrown e, t) = tt

pub in_either :
    {A : Type 0} (b : Bool) (p q : P A) (n : ℕ)
    → Within n p
    → Within n q
    → Within n (if b then p else q)
in_either true p q n h g = h
in_either false p q n h g = g

pub either_method :
    {A : Type 0} (b : Bool) (m k : M A) (n : ℕ)
    → EndsWithin n m
    → EndsWithin n k
    → EndsWithin n (if b then m else k)
either_method true m k n h g = h
either_method false m k n h g = g

live_of-within :
    (alias : Text) (version : Option ℕ) (mappings : Option Fields)
    → EndsWithin 0 (live_of alias version mappings)
live_of-within alias none mappings s = tt
live_of-within alias (some v) mappings s = tt

read_live_index-within : EndsWithin 1 read_live_index
unfolding read_live_index
read_live_index-within s = (0, omega arith, after)
  where
    after : (r : Reply (List (Text × Option Fields))) → Within 0 (live_entries r s)
    after (failed e) =
        in_either (is_index_not_found_error e) (pure none s) (throw (client_failure e) s) 0 tt tt
    after (answered []) = tt
    after (answered ((name, mappings) ∷ [])) =
        live_of-within s.alias (parse_physical_index_version s.alias name) mappings s
    after (answered (_ ∷ _ ∷ _)) = tt

settle-within : {A : Type 0} (r : Reply A) → EndsWithin 0 (settle r)
settle-within (answered a) s = tt
settle-within (failed e) s = tt

repair_alias-within : (index : Text) (r : Reply Bool) → EndsWithin 1 (repair_alias index r)
repair_alias-within index (failed e) s = tt
repair_alias-within index (answered true) s = tt
repair_alias-within index (answered false) s = (0, omega arith, λ r. settle-within r s)

create_initial_index-within :
    (definition : IndexDefinition) → EndsWithin 3 (create_initial_index definition)
unfolding create_initial_index
create_initial_index-within definition s = (2, omega arith, after (physical_index_name s.alias 1))
  where
    after : (index : Text) (r : Reply (Unit {0})) → Within 2 (after_initial index r s)
    after index (answered _) = tt
    after index (failed e) =
        in_either (is_already_exists_error e) (exists_alias s.alias (λ r. repair_alias index r s))
          (throw (client_failure e) s) 2 (1, omega arith, λ r. repair_alias-within index r s) tt

create_pending_index-within :
    (version : ℕ) (definition : IndexDefinition)
    → EndsWithin 1 (create_pending_index version definition)
unfolding create_pending_index
create_pending_index-within version definition s = (0, omega arith, after)
  where
    after : (r : Reply (Unit {0})) → Within 0 (after_pending r s)
    after (answered _) = tt
    after (failed e) =
        either_method (is_already_exists_error e) (throw (migration_failure migration_in_flight))
          (throw (client_failure e)) 0 (λ t. tt) (λ t. tt) s

pub bulk_index-within : (products : List Product) → EndsWithin 1 (bulk_index products)
unfolding bulk_index
bulk_index-within [] s = tt
bulk_index-within (p ∷ ps) s = (0, omega arith, after (length (p ∷ ps)))
  where
    after : (total : ℕ) (r : Reply (List BulkItem)) → Within 0 (summarized total r s)
    after total (failed e) = tt
    after total (answered items) = tt

pub refresh_index-within : EndsWithin 1 refresh_index
unfolding refresh_index
refresh_index-within s = (0, omega arith, λ r. settle-within r s)

module _ (digest : Json → Text) (base : IndexDefinition) where
  prepare-within : (live : Option LiveIndex) → EndsWithin 3 (prepare digest base live)
  unfolding prepare
  prepare-within none =
      then_within (create_initial_index (with_fingerprint digest base)) _ 3 0
        (create_initial_index-within (with_fingerprint digest base))
        (λ _. then_within (assign (some 1) none) _ 0 0 (λ s. tt) (λ _ s. tt))
  prepare-within (some live) =
      either_method (same_fingerprint live.fingerprint (fingerprint_definition digest base)) _ _ 3
        (then_within (assign (some live.version) none) _ 0 3 (λ s. tt) (λ _ s. tt))
        (then_within (assign_served live.version) _ 0 3 (λ s. tt)
          (λ _.
            then_within
              (create_pending_index (next_physical_version (some live.version))
                (with_fingerprint digest base))
              _ 1 2
              (create_pending_index-within (next_physical_version (some live.version))
                (with_fingerprint digest base))
              (λ _. then_within _ _ 0 2 (λ s. tt) (λ _ s. tt))))

  pub ensure_index-within : EndsWithin 4 (ensure_index digest base)
  unfolding ensure_index
  ensure_index-within = then_within read_live_index _ 1 3 read_live_index-within prepare-within
