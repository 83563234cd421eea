-- ===== src/Cache/Flight/Tracked.antt =====
-- The map of loads in progress holds exactly the loads that have not settled, so a key has at most one.
use advanced_search_api.Base.{
  ℕ, Text, none, some, ◌≡◌, ◌≢◌, ◌↔◌, refl, ◌∙◌, ap, ◌⊎◌, inl, inr, arith, List, [], ◌∷◌, length,
  get_elem?, get_elem?-set, get_elem?-snoc, get_elem?_lt, text_eq_iff, text_eq_refl, Option-cases,
  All,
}
use advanced_search_api.Base.Dict.{get, get-put, get-remove}
use advanced_search_api.Shared.{Result}
use advanced_search_api.Cache.Flight.{
  Flight, Loads, Event, arrive, settle, no_loads, join, start, finish_flight, finish, step, run,
}

module _ {T : Type 0} where
  abbrev pub pending : Text → Flight T
  pending k = record { key = k; outcome = none }

  abbrev pub PendingAt : Text → ℕ → Loads T → Type 0
  PendingAt k i s = get_elem? s.promises i ≡ some (pending k)

  -- A key leads to a promise exactly if that promise is for the key and has not settled.
  abbrev pub IsTracked : Loads T → Type 0
  IsTracked s = (k : Text) (i : ℕ) → PendingAt k i s ↔ (get k s.in_flight ≡ some i)

  module _ (s : Loads T) (t : IsTracked s) (key : Text) where
    join_new-IsTracked : get key s.in_flight ≡ none → IsTracked (join key s none).1
    join_new-IsTracked free k i =
        let facts = t k i in
        (
          λ p. ground (
            arith,
            facts.0,
            get_elem?-snoc s.promises (pending key) i,
            get-put key k (length s.promises) s.in_flight,
            text_eq_iff key k,
          ),
          λ g. ground (
            arith,
            facts.1,
            get_elem?-snoc s.promises (pending key) i,
            get-put key k (length s.promises) s.in_flight,
            text_eq_iff key k,
            λ (q : PendingAt k i s). get_elem?_lt s.promises i q,
          ),
        )

    start-IsTracked : IsTracked (start key s).1
    unfolding start
    start-IsTracked = elim (Option-cases (get key s.in_flight)) [
      | inl free ↦ rw free (join_new-IsTracked free)
      | inr (id, busy) ↦ rw busy t
    ]

  module _ (s : Loads T) (t : IsTracked s) (id : ℕ) (r : Result T) where
    finish_pending-IsTracked :
        (p : Flight T)
        → get_elem? s.promises id ≡ some p
        → p.outcome ≡ none
        → IsTracked (finish_flight id r s p none)
    finish_pending-IsTracked p found unsettled k j =
        let facts = t k j in
        let own = (t p.key id).0 (found ∙ ground arith) in
        (
          λ q. ground (
            arith,
            facts.0,
            get_elem?-set s.promises id j (record { key = p.key; outcome = some r }) found,
            get-remove p.key k s.in_flight,
            text_eq_iff p.key k,
          ),
          λ g. ground (
            arith,
            facts.1,
            get_elem?-set s.promises id j (record { key = p.key; outcome = some r }) found,
            get-remove p.key k s.in_flight,
            text_eq_iff p.key k,
          ),
        )

    finish-IsTracked : IsTracked (finish id r s)
    unfolding finish
    finish-IsTracked = elim (Option-cases (get_elem? s.promises id)) [
      | inl gone ↦ rw gone t
      | inr (p, found) ↦ rw found (elim (Option-cases p.outcome) [
        | inl unsettled ↦ rw unsettled (finish_pending-IsTracked p found unsettled)
        | inr (_, done) ↦ rw done t
      ])
    ]

module _ {T : Type 0} where
  step-IsTracked : (e : Event T) (s : Loads T) → IsTracked s → IsTracked (step e s)
  unfolding step
  step-IsTracked (arrive key) s t = start-IsTracked s t key
  step-IsTracked (settle id r) s t = finish-IsTracked s t id r

  pub run-IsTracked : (es : List (Event T)) (s : Loads T) → IsTracked s → IsTracked (run es s)
  unfolding run
  run-IsTracked [] s t = t
  run-IsTracked (e ∷ es) s t = run-IsTracked es (step e s) (step-IsTracked e s t)

  pub no_loads-IsTracked : IsTracked (no_loads {T = T})
  unfolding get
  no_loads-IsTracked k i = (λ h. cc, λ h. cc)

  -- Whatever the order in which callers arrive and loads settle, a key has at most one load that has
  -- not settled.
  pub one_load_per_key :
      (es : List (Event T)) (k : Text) (i j : ℕ)
      → PendingAt k i (run es no_loads)
      → PendingAt k j (run es no_loads)
      → i ≡ j
  one_load_per_key es k i j p q =
      let tracked = run-IsTracked es no_loads no_loads-IsTracked in
      let first = (tracked k i).0 p in let second = (tracked k j).0 q in ground arith

  -- The event does not settle the promise.
  abbrev pub Spares : ℕ → Event T → Type 0
  Spares id (arrive _) = Unit
  Spares id (settle j _) = j ≢ id

  -- What a promise is, or has become, stays.
  abbrev pub PromiseAt : ℕ → Flight T → Loads T → Type 0
  PromiseAt id p s = get_elem? s.promises id ≡ some p

  start_keeps :
      (key : Text) (id : ℕ) (p : Flight T) (s : Loads T)
      → PromiseAt id p s
      → PromiseAt id p (start key s).1
  unfolding start
  start_keeps key id p s h = elim (Option-cases (get key s.in_flight)) [
    | inl free ↦
        rw free
          (ground (arith, get_elem?-snoc s.promises (pending key) id, get_elem?_lt s.promises id h))
    | inr (_, busy) ↦ rw busy h
  ]

  finish_keeps :
      (j : ℕ) (r : Result T) (id : ℕ) (p : Flight T) (s : Loads T)
      → (j ≢ id) ⊎ ((q : Result T) × (p.outcome ≡ some q))
      → PromiseAt id p s
      → PromiseAt id p (finish j r s)
  unfolding finish
  finish_keeps j r id p s apart h = elim (Option-cases (get_elem? s.promises j)) [
    | inl gone ↦ rw gone h
    | inr (q, found) ↦ rw found (elim (Option-cases q.outcome) [
      | inl unsettled ↦ rw unsettled (
          get_elem?-set s.promises j id (record { key = q.key; outcome = some r }) found
          ∙ ground arith)
      | inr (_, done) ↦ rw done h
    ])
  ]

  spared :
      (es : List (Event T)) (id : ℕ) (p : Flight T) (s : Loads T)
      → All (Spares id) es
      → PromiseAt id p s
      → PromiseAt id p (run es s)
  unfolding run step
  spared [] id p s free h = h
  spared (arrive key ∷ es) id p s (_, free) h = spared es id p _ free (start_keeps key id p s h)
  spared (settle j r ∷ es) id p s (n, free) h =
      spared es id p _ free (finish_keeps j r id p s (inl n) h)

  settled :
      (es : List (Event T)) (id : ℕ) (p : Flight T) (q : Result T) (s : Loads T)
      → p.outcome ≡ some q
      → PromiseAt id p s
      → PromiseAt id p (run es s)
  unfolding run step
  settled [] id p q s o h = h
  settled (arrive key ∷ es) id p q s o h = settled es id p q _ o (start_keeps key id p s h)
  settled (settle j r ∷ es) id p q s o h =
      settled es id p q _ o (finish_keeps j r id p s (inr (q, o)) h)

  start-PendingAt : (k : Text) (s : Loads T) → IsTracked s → PendingAt k (start k s).0 (start k s).1
  unfolding start
  start-PendingAt k s t = elim (Option-cases (get k s.in_flight)) [
    | inl free ↦ rw free (ground (arith, get_elem?-snoc s.promises (pending k) (length s.promises)))
    | inr (id, busy) ↦ rw busy ((t k id).1 busy)
  ]

  finish-PendingAt :
      (k : Text) (id : ℕ) (r : Result T) (s : Loads T)
      → PendingAt k id s
      → PromiseAt id (record { key = k; outcome = some r }) (finish id r s)
  unfolding finish
  finish-PendingAt k id r s h =
      rw h (get_elem?-set s.promises id id (record { key = k; outcome = some r }) h ∙ ground arith)

  join_busy : (k : Text) (id : ℕ) (s : Loads T) → get k s.in_flight ≡ some id → start k s ≡ (id, s)
  unfolding start
  join_busy k id s busy = rw busy

  -- A caller of a key, and every caller of the same key that arrives before the load behind the first
  -- one's promise settles, await the same promise, so only one load is made for all of them; and
  -- once that load ends with a result, good or bad, the promise holds it ever after.
  pub shared_outcome :
      (k : Text) (es later : List (Event T)) (r : Result T) (s : Loads T)
      → IsTracked s
      → All (Spares (start k s).0) es
      → ((start k (run es (start k s).1)).0 ≡ (start k s).0)
        × ((start k (run es (start k s).1)).1 ≡ run es (start k s).1)
        × PromiseAt
            (start k s).0
            (record { key = k; outcome = some r })
            (run later (finish (start k s).0 r (run es (start k s).1)))
  shared_outcome k es later r s t free =
      let id = (start k s).0 in
      let first = start-PendingAt k s t in
      let waiting = spared es id (pending k) (start k s).1 free first in
      let tracked = run-IsTracked es _ (start-IsTracked s t k) in
      let joined = join_busy k id (run es (start k s).1) ((tracked k id).0 waiting) in
      (
        ap (λ (x : ℕ × Loads T). x.0) joined,
        ap (λ (x : ℕ × Loads T). x.1) joined,
        settled later id _ r _ refl (finish-PendingAt k id r _ waiting),
      )

  finish_frees :
      (k : Text) (id : ℕ) (r : Result T) (s : Loads T)
      → PendingAt k id s
      → get k (finish id r s).in_flight ≡ none
  unfolding finish
  finish_frees k id r s h = rw h (get-remove k k s.in_flight ∙ rw (text_eq_refl k))

  start_free :
      (k : Text) (s : Loads T)
      → get k s.in_flight ≡ none
      → ((start k s).0 ≡ length s.promises) × PendingAt k (length s.promises) (start k s).1
  unfolding start
  start_free k s free =
      rw free (refl, get_elem?-snoc s.promises (pending k) (length s.promises) ∙ ground arith)

  -- After a load has settled, its key is free, so the next caller's load is a new one: neither a
  -- result nor a failure is served twice from the map.
  pub fresh_after_settling :
      (k : Text) (id : ℕ) (r : Result T) (s : Loads T)
      → PendingAt k id s
      → ((start k (finish id r s)).0 ≡ length (finish id r s).promises)
        × PendingAt k (length (finish id r s).promises) (start k (finish id r s)).1
  fresh_after_settling k id r s h = start_free k (finish id r s) (finish_frees k id r s h)
