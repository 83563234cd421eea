-- ===== src/Index/Cluster/Calls.antt =====
-- Properties of all the calls that a program may make, whatever it is answered.
use advanced_search_api.Base.{ℕ, Text, Option, Bool, List}
use advanced_search_api.Json.{Fields}
use advanced_search_api.Index.Cluster.{
  ClientError, Reply, answered, failed, AliasAction, BulkItem, Program, done, get_mapping, create,
  exists_alias, put_alias, update_aliases, get_indices, delete_index, bulk, refresh, count,
  and_then,
}

-- A call, without what follows it. `creates` has the index and the alias attached to it, if any.
pub data Call : Type 0 where
  reads : Call
  writes : Call
  creates : Text → Option Text → Call
  attaches : Text → Text → Call
  flips : List AliasAction → Call
  deletes : Text → Call

module _ {D : Type 0} (P : Call → Type 0) where
  abbrev pub EveryCall : {A : Type 0} → Program D A → Type 0
  EveryCall (done a) = Unit
  EveryCall (get_mapping x k) =
      P reads × ((r : Reply (List (Text × Option Fields))) → EveryCall (k r))
  EveryCall (create x d a k) = P (creates x a) × ((r : Reply (Unit {0})) → EveryCall (k r))
  EveryCall (exists_alias x k) = P reads × ((r : Reply Bool) → EveryCall (k r))
  EveryCall (put_alias x a k) = P (attaches x a) × ((r : Reply (Unit {0})) → EveryCall (k r))
  EveryCall (update_aliases xs k) = P (flips xs) × ((r : Reply (Unit {0})) → EveryCall (k r))
  EveryCall (get_indices x k) = P reads × ((r : Reply (List Text)) → EveryCall (k r))
  EveryCall (delete_index x k) = P (deletes x) × ((r : Reply (Unit {0})) → EveryCall (k r))
  EveryCall (bulk xs k) = P writes × ((r : Reply (List BulkItem)) → EveryCall (k r))
  EveryCall (refresh x k) = P reads × ((r : Reply (Unit {0})) → EveryCall (k r))
  EveryCall (count x k) = P reads × ((r : Reply ℕ) → EveryCall (k r))

  pub EveryCall-and_then :
      {A B : Type 0} (p : Program D A) (f : A → Program D B)
      → EveryCall p
      → ((a : A) → EveryCall (f a))
      → EveryCall (and_then p f)
  unfolding and_then
  EveryCall-and_then (done a) f h g = g a
  EveryCall-and_then (get_mapping x k) f (c, h) g = (c, λ r. EveryCall-and_then (k r) f (h r) g)
  EveryCall-and_then (create x d a k) f (c, h) g = (c, λ r. EveryCall-and_then (k r) f (h r) g)
  EveryCall-and_then (exists_alias x k) f (c, h) g = (c, λ r. EveryCall-and_then (k r) f (h r) g)
  EveryCall-and_then (put_alias x a k) f (c, h) g = (c, λ r. EveryCall-and_then (k r) f (h r) g)
  EveryCall-and_then (update_aliases x k) f (c, h) g = (c, λ r. EveryCall-and_then (k r) f (h r) g)
  EveryCall-and_then (get_indices x k) f (c, h) g = (c, λ r. EveryCall-and_then (k r) f (h r) g)
  EveryCall-and_then (delete_index x k) f (c, h) g = (c, λ r. EveryCall-and_then (k r) f (h r) g)
  EveryCall-and_then (bulk x k) f (c, h) g = (c, λ r. EveryCall-and_then (k r) f (h r) g)
  EveryCall-and_then (refresh x k) f (c, h) g = (c, λ r. EveryCall-and_then (k r) f (h r) g)
  EveryCall-and_then (count x k) f (c, h) g = (c, λ r. EveryCall-and_then (k r) f (h r) g)

-- `Before` holds of every call up to the first flip of the alias that succeeds, and `After` of every
-- call behind it.
module _ {D : Type 0} (Before After : Call → Type 0) where
  abbrev pub UntilFlip : {A : Type 0} → Program D A → Type 0
  UntilFlip (done a) = Unit
  UntilFlip (get_mapping x k) =
      Before reads × ((r : Reply (List (Text × Option Fields))) → UntilFlip (k r))
  UntilFlip (create x d a k) = Before (creates x a) × ((r : Reply (Unit {0})) → UntilFlip (k r))
  UntilFlip (exists_alias x k) = Before reads × ((r : Reply Bool) → UntilFlip (k r))
  UntilFlip (put_alias x a k) = Before (attaches x a) × ((r : Reply (Unit {0})) → UntilFlip (k r))
  UntilFlip (update_aliases xs k) =
      Before (flips xs)
      × ((e : ClientError) → UntilFlip (k (failed e)))
      × EveryCall After (k (answered tt))
  UntilFlip (get_indices x k) = Before reads × ((r : Reply (List Text)) → UntilFlip (k r))
  UntilFlip (delete_index x k) = Before (deletes x) × ((r : Reply (Unit {0})) → UntilFlip (k r))
  UntilFlip (bulk xs k) = Before writes × ((r : Reply (List BulkItem)) → UntilFlip (k r))
  UntilFlip (refresh x k) = Before reads × ((r : Reply (Unit {0})) → UntilFlip (k r))
  UntilFlip (count x k) = Before reads × ((r : Reply ℕ) → UntilFlip (k r))

-- The program once its first call, a `getMapping`, has been answered.
module _ {D A : Type 0} where
  abbrev pub after_mapping : Program D A → Reply (List (Text × Option Fields)) → Program D A
  after_mapping (get_mapping x k) r = k r
  after_mapping p r = p
