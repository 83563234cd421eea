-- ===== src/Index/Adapter.antt =====
-- src/infrastructure/elasticsearch/index/product-index.adapter.ts. A method takes the adapter's
-- state to a program of calls; the state comes back beside an error too, as what was assigned
-- before a throw stays assigned.

pub mod Budget
pub mod Provisioning
pub mod Rerun
pub mod Publication
use advanced_search_api.Base.{
  ℕ, zero, suc, ◌+◌, Text, str, Option, none, some, Bool, true, false, List, [], ◌∷◌, ◌++◌, map,
  length, leb, ltb, if◌then◌else◌, text_eq,
}
use advanced_search_api.Json.{Json, Fields}
use advanced_search_api.Domain.{Product}
use advanced_search_api.Index.Version.{
  physical_index_name, parse_physical_index_version, next_physical_version,
}
use advanced_search_api.Index.Fingerprint.{
  IndexDefinition, fingerprint_definition, with_fingerprint, read_fingerprint,
}
use advanced_search_api.Index.Cluster.{
  ClientError, Reply, answered, failed, AliasAction, add, remove, BulkItem, BulkOperation, Program,
  done, get_mapping, create, exists_alias, put_alias, update_aliases, get_indices, delete_index,
  bulk, refresh, count, and_then, is_already_exists_error, is_index_not_found_error,
}
use advanced_search_api.Index.Bulk.{
  ProductDocument, BulkResult, build_bulk_operations, summarize_bulk_response,
}

-- The messages of `IndexMigrationError`.
pub data MigrationError : Type 0 where
  not_prepared ambiguous_alias unconventional_name migration_in_flight : MigrationError

pub data Failure : Type 0 where
  client_failure : ClientError → Failure
  migration_failure : MigrationError → Failure

pub data Outcome (A : Type 0) : Type 0 where
  ok : A → Outcome A
  thrown : Failure → Outcome A

pub record PendingVersion : Type 0 where
  pub version : ℕ
  pub replaced_version : ℕ

pub record Adapter : Type 0 where
  pub alias : Text
  pub served_version : Option ℕ
  pub pending : Option PendingVersion

pub record LiveIndex : Type 0 where
  pub version : ℕ
  pub fingerprint : Option Text

-- The models of src/application/models/index-migration.ts.
pub data PreparationAction : Type 0 where
  unchanged created migrating : PreparationAction

pub record IndexPreparation : Type 0 where
  pub action : PreparationAction
  pub version : ℕ
  pub replaced_version : Option ℕ

pub record IndexPublication : Type 0 where
  pub published : Bool
  pub version : ℕ
  pub retained_version : Option ℕ
  pub pruned_versions : List ℕ

abbrev pub P : Type 0 → Type 0
P A = Program ProductDocument A

-- A method of the adapter.
abbrev pub M : Type 0 → Type 0
M A = Adapter → P (Outcome A × Adapter)

abbrev pub pure : {A : Type 0} → A → M A
pure a s = done (ok a, s)

abbrev pub throw : {A : Type 0} → Failure → M A
throw e s = done (thrown e, s)

abbrev pub continue : {A B : Type 0} → (A → M B) → Outcome A × Adapter → P (Outcome B × Adapter)
continue f (ok a, s) = f a s
continue f (thrown e, s) = done (thrown e, s)

infixl 5 ◌>>=◌ ◌>>◌
abbrev pub ◌>>=◌ : {A B : Type 0} → M A → (A → M B) → M B
◌>>=◌ m f s = and_then (m s) (continue f)

abbrev pub ◌>>◌ : {B : Type 0} → M (Unit {0}) → M B → M B
m >> k = m >>= λ _. k

-- `await` without a `catch`.
abbrev pub settle : {A : Type 0} → Reply A → M A
settle (answered a) = pure a
settle (failed e) = throw (client_failure e)

abbrev assign : Option ℕ → Option PendingVersion → M (Unit {0})
assign served pending s = done (ok tt, record s { served_version = served; pending = pending })

abbrev assign_served : ℕ → M (Unit {0})
assign_served version s = done (ok tt, record s { served_version = some version })

abbrev live_of : Text → Option ℕ → Option Fields → M (Option LiveIndex)
live_of alias none mappings = throw (migration_failure unconventional_name)
live_of alias (some version) mappings =
    pure (some (record { version = version; fingerprint = read_fingerprint mappings }))

abbrev live_entries : Reply (List (Text × Option Fields)) → M (Option LiveIndex)
live_entries (failed e) s =
    if is_index_not_found_error e then pure none s else throw (client_failure e) s
live_entries (answered []) s = pure none s
live_entries (answered ((name, mappings) ∷ [])) s =
    live_of s.alias (parse_physical_index_version s.alias name) mappings s
live_entries (answered (_ ∷ _ ∷ _)) s = throw (migration_failure ambiguous_alias) s

unfoldable pub read_live_index : M (Option LiveIndex)
read_live_index s = get_mapping s.alias (λ r. live_entries r s)

abbrev repair_alias : Text → Reply Bool → M (Unit {0})
repair_alias index (failed e) s = throw (client_failure e) s
repair_alias index (answered true) s = pure tt s
repair_alias index (answered false) s = put_alias index s.alias (λ r. settle r s)

abbrev after_initial : Text → Reply (Unit {0}) → M (Unit {0})
after_initial index (answered _) s = pure tt s
after_initial index (failed e) s =
    if is_already_exists_error e
    then exists_alias s.alias (λ r. repair_alias index r s)
    else throw (client_failure e) s

unfoldable pub create_initial_index : IndexDefinition → M (Unit {0})
create_initial_index definition s =
    let index = physical_index_name s.alias 1 in
    create index definition (some s.alias) (λ r. after_initial index r s)

abbrev after_pending : Reply (Unit {0}) → M (Unit {0})
after_pending (answered _) = pure tt
after_pending (failed e) =
    if is_already_exists_error e
    then throw (migration_failure migration_in_flight)
    else throw (client_failure e)

unfoldable pub create_pending_index : ℕ → IndexDefinition → M (Unit {0})
create_pending_index version definition s =
    create (physical_index_name s.alias version) definition none (λ r. after_pending r s)

abbrev pub same_fingerprint : Option Text → Text → Bool
same_fingerprint none t = false
same_fingerprint (some u) t = text_eq u t

-- The adapter over a definition in the code, and the digest of node:crypto.
module _ (digest : Json → Text) (base : IndexDefinition) where
  prepare : Option LiveIndex → M IndexPreparation
  prepare none = do
    create_initial_index (with_fingerprint digest base)
    assign (some 1) none
    pure (record { action = created; version = 1; replaced_version = none })
  prepare (some live) =
      if same_fingerprint live.fingerprint (fingerprint_definition digest base)
      then (do
        assign (some live.version) none
        pure (record { action = unchanged; version = live.version; replaced_version = none }))
      else (do
        assign_served live.version
        create_pending_index (next_physical_version (some live.version))
            (with_fingerprint digest base)
        assign (some live.version) (
            some (record {
              version = next_physical_version (some live.version);
              replaced_version = live.version;
            }))
        pure (record {
          action = migrating;
          version = next_physical_version (some live.version);
          replaced_version = some live.version;
        }))

  unfoldable pub ensure_index : M IndexPreparation
  unfolding and_then read_live_index create_initial_index create_pending_index prepare
  ensure_index = do live ← read_live_index; prepare live

abbrev target_of : Text → Option PendingVersion → Text
target_of alias none = alias
target_of alias (some p) = physical_index_name alias p.version

unfoldable pub write_target : Adapter → Text
write_target s = target_of s.alias s.pending

abbrev summarized : ℕ → Reply (List BulkItem) → M BulkResult
summarized total (failed e) = throw (client_failure e)
summarized total (answered items) = pure (summarize_bulk_response items total)

unfoldable pub bulk_index : List Product → M BulkResult
unfolding build_bulk_operations summarize_bulk_response write_target
bulk_index [] s = done (ok (record { total = 0; indexed = 0; failed = 0; failures = [] }), s)
bulk_index (p ∷ ps) s =
    bulk (build_bulk_operations (p ∷ ps) (write_target s)) (λ r. summarized (length (p ∷ ps)) r s)

unfoldable pub refresh_index : M (Unit {0})
unfolding write_target
refresh_index s = refresh (write_target s) (λ r. settle r s)

unfoldable pub count_documents : M ℕ
unfolding write_target
count_documents s = count (write_target s) (λ r. settle r s)
