-- ===== src/Index/Bulk/Summary.antt =====
-- The accounts of a bulk load.
use advanced_search_api.Base.{
  ℕ, suc, ◌+◌, ◌≤◌, none, ◌≡◌, refl, ◌↔◌, arith, List, [], ◌∷◌, length, All, Option-cases, inl, inr,
}
use advanced_search_api.Index.Cluster.{BulkItem}
use advanced_search_api.Index.Bulk.{failure_of, failures_of, summarize_bulk_response}

length-failures_of : (is : List BulkItem) → length (failures_of is) ≤ length is
unfolding failures_of
length-failures_of [] = omega arith
length-failures_of (i ∷ is) = ground (arith, length-failures_of is)

failures_of-nil : (is : List BulkItem) → length (failures_of is) ≡ 0 → All (λ i. i.reason ≡ none) is
unfolding failures_of
failures_of-nil [] h = tt
failures_of-nil (i ∷ is) h = elim (Option-cases i.reason) [
  | inl e ↦ (e, failures_of-nil is (rw (e, failure_of) at h))
  | inr (r, e) ↦
      absurd
        (omega (arith, (let n : suc (length (failures_of is)) ≡ 0 = rw (e, failure_of) at h in n)))
]

failures_of-none :
    (is : List BulkItem) → All (λ i. i.reason ≡ none) is → length (failures_of is) ≡ 0
unfolding failures_of
failures_of-none [] h = refl
failures_of-none (i ∷ is) (e, h) = rw (e, failure_of) (failures_of-none is h)

-- With one item for each document, the documents counted as indexed and as failed are all of them,
-- and none is counted as failed exactly if no item of the answer has an error.
pub summarize_bulk_response_total :
    (is : List BulkItem) (total : ℕ)
    → length is ≡ total
    → ((summarize_bulk_response is total).indexed + (summarize_bulk_response is total).failed
        ≡ total)
      × (((summarize_bulk_response is total).failed ≡ 0) ↔ All (λ i. i.reason ≡ none) is)
unfolding summarize_bulk_response
summarize_bulk_response_total is total h =
    (omega (arith, length-failures_of is), (failures_of-nil is, failures_of-none is))
