-- ===== src/Index/Adapter/Provisioning.antt =====
-- What provisioning may do to the cluster, whatever the cluster answers.
use advanced_search_api.Base.{
  ℕ, Text, Option, none, some, Bool, true, false, ◌≡◌, refl, List, [], ◌∷◌, Bool-cases, inl, inr,
}
use advanced_search_api.Json.{Json, Fields}
use advanced_search_api.Index.Version.{
  physical_index_name, parse_physical_index_version, next_physical_version,
}
use advanced_search_api.Index.Fingerprint.{
  IndexDefinition, with_fingerprint, fingerprint_definition,
}
use advanced_search_api.Index.Cluster.{
  Reply, answered, failed, is_already_exists_error, is_index_not_found_error, and_then,
}
use advanced_search_api.Index.Cluster.Calls.{
  Call, reads, writes, creates, attaches, flips, deletes, EveryCall, EveryCall-and_then,
}
use advanced_search_api.Index.Adapter.{
  Adapter, PendingVersion, LiveIndex, Outcome, P, continue, settle, live_of, live_entries,
  read_live_index, IndexPreparation, assign, ◌>>◌, thrown, ok, after_initial, repair_alias,
  create_initial_index, after_pending, create_pending_index, same_fingerprint, prepare,
  ensure_index, pure,
}

-- Provisioning: no index is deleted, the alias is not moved, and it is attached at once only to the
-- first version.
abbrev pub IsProvisioning : Text → Call → Type 0
IsProvisioning alias reads = Unit
IsProvisioning alias writes = ⊥
IsProvisioning alias (creates index none) = Unit
IsProvisioning alias (creates index (some a)) = (a ≡ alias) × (index ≡ physical_index_name alias 1)
IsProvisioning alias (attaches index a) = (a ≡ alias) × (index ≡ physical_index_name alias 1)
IsProvisioning alias (flips _) = ⊥
IsProvisioning alias (deletes _) = ⊥

abbrev pub Provisions : {A : Type 0} → Text → P A → Type 0
Provisions alias p = EveryCall (IsProvisioning alias) p

live_entries_quiet :
    (r : Reply (List (Text × Option Fields))) (s : Adapter) → Provisions s.alias (live_entries r s)
live_entries_quiet (failed e) s = elim (Bool-cases (is_index_not_found_error e)) [
  | inl h ↦ rw h tt
  | inr h ↦ rw h tt
]
live_entries_quiet (answered []) s = tt
live_entries_quiet (answered ((name, m) ∷ [])) s = go (parse_physical_index_version s.alias name)
  where
    go : (o : Option ℕ) → Provisions s.alias (live_of s.alias o m s)
    go none = tt
    go (some v) = tt
live_entries_quiet (answered (_ ∷ _ ∷ _)) s = tt

settle_quiet : (r : Reply (Unit {0})) (s : Adapter) → Provisions s.alias (settle r s)
settle_quiet (answered _) s = tt
settle_quiet (failed _) s = tt

repair_alias-Provisions :
    (r : Reply Bool) (s : Adapter)
    → Provisions s.alias (repair_alias (physical_index_name s.alias 1) r s)
repair_alias-Provisions (failed e) s = tt
repair_alias-Provisions (answered true) s = tt
repair_alias-Provisions (answered false) s = ((refl, refl), λ r. settle_quiet r s)

after_initial-Provisions :
    (r : Reply (Unit {0})) (s : Adapter)
    → Provisions s.alias (after_initial (physical_index_name s.alias 1) r s)
after_initial-Provisions (answered _) s = tt
after_initial-Provisions (failed e) s = elim (Bool-cases (is_already_exists_error e)) [
  | inl h ↦ rw h (tt, λ r. repair_alias-Provisions r s)
  | inr h ↦ rw h tt
]

after_pending_quiet : (r : Reply (Unit {0})) (s : Adapter) → Provisions s.alias (after_pending r s)
after_pending_quiet (answered _) s = tt
after_pending_quiet (failed e) s = elim (Bool-cases (is_already_exists_error e)) [
  | inl h ↦ rw h tt
  | inr h ↦ rw h tt
]

-- What follows the creation calls nothing.
assigned_quiet :
    (alias : Text) (v : Option ℕ) (p : Option PendingVersion) (x : IndexPreparation)
    (o : Outcome (Unit {0}) × Adapter)
    → Provisions alias (continue (λ _. assign v p >> pure x) o)
unfolding and_then
assigned_quiet alias v p x (ok _, s) = tt
assigned_quiet alias v p x (thrown _, s) = tt

module _ (digest : Json → Text) (base : IndexDefinition) where
  prepare-Provisions :
      (live : Option LiveIndex) (s : Adapter) → Provisions s.alias (prepare digest base live s)
  unfolding prepare create_initial_index create_pending_index and_then
  prepare-Provisions none s =
      EveryCall-and_then (IsProvisioning s.alias)
        (create_initial_index (with_fingerprint digest base) s) _
        ((refl, refl), λ r. after_initial-Provisions r s) (assigned_quiet s.alias (some 1) none _)
  prepare-Provisions (some live) s =
      elim (Bool-cases (same_fingerprint live.fingerprint (fingerprint_definition digest base))) [
        | inl h ↦ rw h tt
        | inr h ↦ rw h (
            EveryCall-and_then (IsProvisioning s.alias)
              (create_pending_index (next_physical_version (some live.version))
                (with_fingerprint digest base) (record s { served_version = some live.version }))
              _ (tt, λ r. after_pending_quiet r (record s { served_version = some live.version }))
              (assigned_quiet s.alias _ _ _))
      ]

  live_then-Provisions :
      (r : Reply (List (Text × Option Fields))) (s : Adapter)
      → Provisions s.alias (and_then (live_entries r s) (continue (prepare digest base)))
  unfolding and_then
  live_then-Provisions (failed e) s = elim (Bool-cases (is_index_not_found_error e)) [
    | inl h ↦ rw h (prepare-Provisions none s)
    | inr h ↦ rw h tt
  ]
  live_then-Provisions (answered []) s = prepare-Provisions none s
  live_then-Provisions (answered ((name, m) ∷ [])) s =
      go (parse_physical_index_version s.alias name)
    where
      go :
          (o : Option ℕ)
          → Provisions s.alias (and_then (live_of s.alias o m s) (continue (prepare digest base)))
      go none = tt
      go (some v) = prepare-Provisions (some _) s
  live_then-Provisions (answered (_ ∷ _ ∷ _)) s = tt

  -- Whatever the cluster answers to each call, `ensureIndex` deletes no index and moves no alias: it
  -- only reads, creates indices, and attaches its alias, at creation or later, to version 1.
  pub ensure_index-Provisions : (s : Adapter) → Provisions s.alias (ensure_index digest base s)
  unfolding ensure_index read_live_index and_then
  ensure_index-Provisions s = (tt, λ r. live_then-Provisions r s)
