-- ===== src/Index/Cluster/Budget.antt =====
-- How many calls a program may make, whatever it is answered.
use advanced_search_api.Base.{ℕ, suc, ◌+◌, ◌≤◌, Text, Option, Bool, List, length, arith}
use advanced_search_api.Json.{Fields}
use advanced_search_api.Index.Cluster.{
  Reply, answered, failed, BulkItem, Program, done, get_mapping, create, exists_alias, put_alias,
  update_aliases, get_indices, delete_index, bulk, refresh, count, and_then,
}

-- The names in an answer to a listing.
abbrev pub listed : Reply (List Text) → ℕ
listed (answered names) = length names
listed (failed e) = 0

-- One call is within the budget, and what follows is within what it leaves.
abbrev pub Spends : ℕ → (ℕ → Type 0) → Type 0
Spends n Rest = (m : ℕ) × (suc m ≤ n) × Rest m

Spends-more : (Rest : ℕ → Type 0) (n m : ℕ) → Spends n Rest → n ≤ m → Spends m Rest
Spends-more Rest n m (b, le, h) more = (b, omega arith, h)

-- The program ends within `n` calls and one more for each name that a listing is answered with.
module _ {D A : Type 0} where
  abbrev pub Within : ℕ → Program D A → Type 0
  Within n (done a) = Unit
  Within n (get_mapping x k) =
      Spends n (λ m. (r : Reply (List (Text × Option Fields))) → Within m (k r))
  Within n (create x d a k) = Spends n (λ m. (r : Reply (Unit {0})) → Within m (k r))
  Within n (exists_alias x k) = Spends n (λ m. (r : Reply Bool) → Within m (k r))
  Within n (put_alias x a k) = Spends n (λ m. (r : Reply (Unit {0})) → Within m (k r))
  Within n (update_aliases xs k) = Spends n (λ m. (r : Reply (Unit {0})) → Within m (k r))
  Within n (get_indices x k) = Spends n (λ m. (r : Reply (List Text)) → Within (m + listed r) (k r))
  Within n (delete_index x k) = Spends n (λ m. (r : Reply (Unit {0})) → Within m (k r))
  Within n (bulk xs k) = Spends n (λ m. (r : Reply (List BulkItem)) → Within m (k r))
  Within n (refresh x k) = Spends n (λ m. (r : Reply (Unit {0})) → Within m (k r))
  Within n (count x k) = Spends n (λ m. (r : Reply ℕ) → Within m (k r))

  pub Within-more : (p : Program D A) (n m : ℕ) → Within n p → n ≤ m → Within m p
  Within-more (done a) n m h le = tt
  Within-more (get_mapping x k) n m h le = Spends-more _ n m h le
  Within-more (create x d a k) n m h le = Spends-more _ n m h le
  Within-more (exists_alias x k) n m h le = Spends-more _ n m h le
  Within-more (put_alias x a k) n m h le = Spends-more _ n m h le
  Within-more (update_aliases x k) n m h le = Spends-more _ n m h le
  Within-more (get_indices x k) n m h le = Spends-more _ n m h le
  Within-more (delete_index x k) n m h le = Spends-more _ n m h le
  Within-more (bulk x k) n m h le = Spends-more _ n m h le
  Within-more (refresh x k) n m h le = Spends-more _ n m h le
  Within-more (count x k) n m h le = Spends-more _ n m h le

module _ {D A B : Type 0} (f : A → Program D B) (m : ℕ) (g : (a : A) → Within m (f a)) where
  pub Within-and_then : (p : Program D A) (n : ℕ) → Within n p → Within (n + m) (and_then p f)
  unfolding and_then
  Within-and_then (done a) n h = Within-more (f a) m (n + m) (g a) (omega arith)
  Within-and_then (get_mapping x k) n (b, le, h) =
      (b + m, omega arith, λ r. Within-and_then (k r) b (h r))
  Within-and_then (create x d a k) n (b, le, h) =
      (b + m, omega arith, λ r. Within-and_then (k r) b (h r))
  Within-and_then (exists_alias x k) n (b, le, h) =
      (b + m, omega arith, λ r. Within-and_then (k r) b (h r))
  Within-and_then (put_alias x a k) n (b, le, h) =
      (b + m, omega arith, λ r. Within-and_then (k r) b (h r))
  Within-and_then (update_aliases x k) n (b, le, h) =
      (b + m, omega arith, λ r. Within-and_then (k r) b (h r))
  Within-and_then (get_indices x k) n (b, le, h) = (
    b + m,
    omega arith,
    λ r.
        Within-more _ (b + listed r + m) (b + m + listed r)
          (Within-and_then (k r) (b + listed r) (h r)) (omega arith),
  )
  Within-and_then (delete_index x k) n (b, le, h) =
      (b + m, omega arith, λ r. Within-and_then (k r) b (h r))
  Within-and_then (bulk x k) n (b, le, h) = (b + m, omega arith, λ r. Within-and_then (k r) b (h r))
  Within-and_then (refresh x k) n (b, le, h) =
      (b + m, omega arith, λ r. Within-and_then (k r) b (h r))
  Within-and_then (count x k) n (b, le, h) =
      (b + m, omega arith, λ r. Within-and_then (k r) b (h r))
