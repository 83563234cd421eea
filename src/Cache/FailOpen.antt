-- ===== src/Cache/FailOpen.antt =====
-- The cache never fails a request, and each request counts once.
use advanced_search_api.Base.{
  ℕ, zero, suc, ◌+◌, Text, refl, ◌⊎◌, inl, inr, Option, none, some, ◌≡◌, arith, List, [], ◌∷◌, ◌++◌,
  append_assoc, append-nil,
}
use advanced_search_api.Shared.{Result, ok, thrown, Ended, returned, raised}
use advanced_search_api.Cache.{
  with_jitter, CacheCall, cache_get, load, cache_set, Effects, World, read_through, write_through,
  cache_aside,
}

abbrev pub upstream : {E T : Type 0} → Option (Ended E T) → Ended E T → Ended E T
upstream none own = own
upstream (some joined) own = joined

module _ {Raw T : Type 0} where
  -- What a read of the cache has to offer: a value of the right shape, or nothing.
  abbrev pub valid : (Raw → Option T) → Result (Option Raw) → Option T
  valid schema (thrown _) = none
  valid schema (ok none) = none
  valid schema (ok (some raw)) = schema raw

-- How a load ends.
pub Ended-cases :
    {E T : Type 0} (r : Ended E T) → ((v : T) × (r ≡ returned v)) ⊎ ((t : E) × (r ≡ raised t))
Ended-cases (returned v) = inl (v, refl)
Ended-cases (raised t) = inr (t, refl)

module _ {Raw E T : Type 0} where
  -- The answer of a request by its meaning alone: a valid entry if caching is on, else what the
  -- search engine says.
  abbrev pub answer_of : World Raw E T → ℕ → Ended E T
  answer_of w zero = upstream w.in_progress w.loaded
  answer_of w (suc ttl) = elim (valid w.schema w.read) [
    | some v ↦ returned v
    | none ↦ upstream w.in_progress w.loaded
  ]

  read_through_value :
      (w : World Raw E T) (key : Text) (e : Effects T)
      → (read_through w key e).0 ≡ valid w.schema w.read
  unfolding read_through
  read_through_value w key e = ground arith

  -- With any failure of the cache, to read or to write, and with any entry of the wrong shape, the
  -- request ends as the search engine's answer does: a cache error is never the request's.
  pub cache_aside_answer :
      (w : World Raw E T) (key : Text) (ttl : ℕ) (e : Effects T)
      → (cache_aside w key ttl e).0 ≡ answer_of w ttl
  unfolding cache_aside write_through
  cache_aside_answer w key zero e = ground arith
  cache_aside_answer w key (suc ttl) e = ground arith

  -- The calls that one request makes, by its meaning.
  abbrev pub own_load : World Raw E T → Text → ℕ → List (CacheCall T)
  own_load w key ttl = elim w.in_progress [
    | some _ ↦ []
    | none ↦ load ∷ (elim w.loaded [
      | raised _ ↦ []
      | returned v ↦ elim ttl [
        | zero ↦ []
        | suc n ↦ cache_set key v (with_jitter w.random w.random_scale (suc n)) ∷ []
      ]
    ])
  ]

  abbrev pub calls_of : World Raw E T → Text → ℕ → List (CacheCall T)
  calls_of w key zero = own_load w key zero
  calls_of w key (suc ttl) = elim (valid w.schema w.read) [
    | some v ↦ cache_get key ∷ []
    | none ↦ cache_get key ∷ own_load w key (suc ttl)
  ]

  -- What a request calls, in order: nothing of the cache where the lifetime is 0; else the cache once;
  -- after a miss the search engine once, unless a load of the key is in progress; and after a load
  -- that succeeds, and only then, one write of what was loaded, with the jittered lifetime. It counts one hit or one miss.
  pub cache_aside_calls :
      (w : World Raw E T) (key : Text) (ttl : ℕ) (e : Effects T)
      → ((cache_aside w key ttl e).1.calls ≡ e.calls ++ calls_of w key ttl)
        × ((cache_aside w key ttl e).1.hits + (cache_aside w key ttl e).1.misses
            ≡ suc (e.hits + e.misses))
  unfolding cache_aside write_through
  cache_aside_calls w key zero e = (ground (arith, append-nil e.calls), ground arith)
  cache_aside_calls w key (suc ttl) e =
      let get : CacheCall T = cache_get key in
      (
        elim (Ended-cases w.loaded) [
          | inl (v, loaded) ↦
              let set = cache_set key v (with_jitter w.random w.random_scale (suc ttl)) in
              ground (
                arith,
                append-nil (e.calls ++ get ∷ []),
                append_assoc e.calls (get ∷ []) (load ∷ set ∷ []),
                append_assoc (e.calls ++ get ∷ []) (load ∷ []) (set ∷ []),
              )
          | inr (t, failed) ↦
              ground (
                arith,
                append-nil (e.calls ++ get ∷ []),
                append_assoc e.calls (get ∷ []) (load ∷ []),
              )
        ],
        ground arith,
      )
