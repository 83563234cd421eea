-- ===== src/Index/Adapter/Publication/Flip.antt =====
-- What publishing a version may do to the cluster, whatever the cluster answers.
use advanced_search_api.Base.{
  ℕ, ◌<◌, Text, Option, none, some, ◌≡◌, refl, List, [], ◌∷◌, All, Bool-cases, inl, inr, ltb,
  ltb→lt, ltb, subst, sym,
}
use advanced_search_api.Index.Version.{parse_physical_index_version, physical_index_name}
use advanced_search_api.Index.Cluster.{Reply, answered, failed, add, remove, and_then}
use advanced_search_api.Index.Cluster.Calls.{
  Call, reads, writes, creates, attaches, flips, deletes, EveryCall, EveryCall-and_then, UntilFlip,
}
use advanced_search_api.Index.Adapter.{Adapter, PendingVersion, Outcome, continue, thrown, ok, pure}
use advanced_search_api.Index.Adapter.Publication.{
  stale_if, stale_indices, after_delete, delete_all, prune_found, prune_older_than, publish_index,
  publish_from, published_version,
}

-- An index that goes after the flip: its name has a version below the one replaced.
abbrev pub IsOld : Text → ℕ → Text → Type 0
IsOld alias bound name =
    (v : ℕ) × ((parse_physical_index_version alias name ≡ some v) × (v < bound))

-- Up to the flip, nothing is written, deleted, created or attached; the only change of the alias is one
-- request with two actions: it leaves the index of the replaced version and joins the pending one's.
abbrev pub IsFlip : Text → PendingVersion → Call → Type 0
IsFlip alias p reads = Unit
IsFlip alias p writes = ⊥
IsFlip alias p (creates _ _) = ⊥
IsFlip alias p (attaches _ _) = ⊥
IsFlip alias p (flips xs) =
    xs
    ≡ remove (physical_index_name alias p.replaced_version) alias
      ∷ add (physical_index_name alias p.version) alias
      ∷ []
IsFlip alias p (deletes _) = ⊥

-- Behind the flip, only old indices are deleted and the alias stays.
abbrev pub IsPruning : Text → ℕ → Call → Type 0
IsPruning alias bound reads = Unit
IsPruning alias bound writes = ⊥
IsPruning alias bound (creates _ _) = ⊥
IsPruning alias bound (attaches _ _) = ⊥
IsPruning alias bound (flips _) = ⊥
IsPruning alias bound (deletes name) = IsOld alias bound name

abbrev AllOld : Text → ℕ → List (Text × ℕ) → Type 0
AllOld alias bound stale = All (λ (i : Text × ℕ). IsOld alias bound i.0) stale

stale_if-IsOld :
    (alias : Text) (bound : ℕ) (name : Text) (o : Option ℕ) (rest : List (Text × ℕ))
    → parse_physical_index_version alias name ≡ o
    → AllOld alias bound rest
    → AllOld alias bound (stale_if bound name o rest)
stale_if-IsOld alias bound name none rest e h = h
stale_if-IsOld alias bound name (some v) rest e h = elim (Bool-cases (ltb v bound)) [
  | inl l ↦ rw l ((v, (e, ltb→lt v bound l)), h)
  | inr l ↦ rw l h
]

stale_indices-IsOld :
    (alias : Text) (bound : ℕ) (names : List Text)
    → AllOld alias bound (stale_indices alias bound names)
unfolding stale_indices
stale_indices-IsOld alias bound [] = tt
stale_indices-IsOld alias bound (name ∷ names) =
    stale_if-IsOld alias bound name _ _ refl (stale_indices-IsOld alias bound names)

delete_all_prunes :
    (alias : Text) (bound : ℕ) (stale : List (Text × ℕ)) (s : Adapter)
    → AllOld alias bound stale
    → EveryCall (IsPruning alias bound) (delete_all stale s)
unfolding delete_all
delete_all_prunes alias bound [] s h = tt
delete_all_prunes alias bound ((name, v) ∷ rest) s (old, h) =
    let others = delete_all_prunes alias bound rest s h in (old, λ r. go others r)
  where
    go :
        EveryCall (IsPruning alias bound) (delete_all rest s)
        → (r : Reply (Unit {0}))
        → EveryCall (IsPruning alias bound) (after_delete (delete_all rest) r s)
    go others (answered _) = others
    go others (failed e) = tt

pruned_quiet :
    (alias : Text) (bound : ℕ) (p : PendingVersion) (o : Outcome (List ℕ) × Adapter)
    → EveryCall (IsPruning alias bound) (continue (published_version p) o)
unfolding and_then
pruned_quiet alias bound p (ok ns, s) = tt
pruned_quiet alias bound p (thrown _, s) = tt

listed_quiet :
    (alias : Text) (bound : ℕ) (ns : List ℕ) (o : Outcome (Unit {0}) × Adapter)
    → EveryCall (IsPruning alias bound) (continue (λ _. pure ns) o)
listed_quiet alias bound ns (ok _, s) = tt
listed_quiet alias bound ns (thrown _, s) = tt

prune_found_prunes :
    (bound : ℕ) (r : Reply (List Text)) (s : Adapter)
    → EveryCall (IsPruning s.alias bound) (prune_found bound r s)
prune_found_prunes bound (failed e) s = tt
prune_found_prunes bound (answered names) s =
    EveryCall-and_then (IsPruning s.alias bound) (delete_all (stale_indices s.alias bound names) s)
      _ (delete_all_prunes s.alias bound _ s (stale_indices-IsOld s.alias bound names))
      (listed_quiet s.alias bound _)

prune_older_than_prunes :
    (bound : ℕ) (s : Adapter) → EveryCall (IsPruning s.alias bound) (prune_older_than bound s)
unfolding prune_older_than
prune_older_than_prunes bound s = (tt, λ r. prune_found_prunes bound r s)

publish_from_flips_first :
    (p : PendingVersion) (s : Adapter)
    → UntilFlip (IsFlip s.alias p) (IsPruning s.alias p.replaced_version) (publish_from (some p) s)
publish_from_flips_first p s = (
  refl,
  (λ e. tt),
  EveryCall-and_then (IsPruning s.alias p.replaced_version) (prune_older_than p.replaced_version s)
      _ (prune_older_than_prunes p.replaced_version s) (pruned_quiet s.alias p.replaced_version p),
)

-- With a version pending, the only change of the alias that `publishIndex` asks for is one request of two
-- actions: the alias is taken off the index named after the replaced version and put on the one named
-- after the pending version. Nothing is written, created or deleted before that request has
-- succeeded, and behind it only indices whose name has a version below the replaced one are deleted.
pub publish_index_flips_first :
    (s : Adapter) (p : PendingVersion)
    → s.pending ≡ some p
    → UntilFlip (IsFlip s.alias p) (IsPruning s.alias p.replaced_version) (publish_index s)
unfolding publish_index
publish_index_flips_first s p h =
    subst
      (λ o. UntilFlip (IsFlip s.alias p) (IsPruning s.alias p.replaced_version) (publish_from o s))
      (sym h) (publish_from_flips_first p s)
