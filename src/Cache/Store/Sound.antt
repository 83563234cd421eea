-- ===== src/Cache/Store/Sound.antt =====
-- What a cached service answers is right for its key.
use advanced_search_api.Base.{
  ℕ, zero, suc, Text, Option, none, some, Bool, true, false, ◌≡◌, refl, sym, subst, ap, ◌∙◌, List,
  [], ◌∷◌, ◌⊎◌, arith, text_eq, text_eq_iff, Bool-cases, inl, inr, Option-cases,
}
use advanced_search_api.Base.Dict.{Dict, get, put, remove, get-put, get-remove}
use advanced_search_api.Json.{Json}
use advanced_search_api.Shared.{Thrown, Result, ok, Ended, returned}
use advanced_search_api.Cache.{World, CacheCall}
use advanced_search_api.Cache.FailOpen.{
  upstream, valid, answer_of, calls_of, own_load, Ended-cases, cache_aside_answer,
  cache_aside_calls,
}
use advanced_search_api.Cache.Store.{cache_get_reply, cache_set_command}
use advanced_search_api.Cache.Store.Runs.{
  Turn, Event, request, forgotten, reply_of, perform, perform_calls, no_effects, world_of, serve,
  run,
}

module _ {E : Type 0} (P : Text → Ended E Json → Type 0) where
  -- Every entry was written for its key.
  abbrev pub IsSound : (Json → Text) → Dict Text → Type 0
  IsSound stringify store =
      (k raw : Text) → get k store ≡ some raw → (v : Json) × (raw ≡ stringify v) × P k (returned v)

  abbrev pub JoinedIs : Text → Option (Ended E Json) → Type 0
  JoinedIs k none = Unit
  JoinedIs k (some r) = P k r

  -- The search engine's answers, to the request itself and to the load that it joins.
  abbrev pub Loaded : Turn E → Type 0
  Loaded t = JoinedIs t.key t.in_progress × P t.key t.loaded

  abbrev pub AllLoaded : List (Event E) → Type 0
  AllLoaded [] = Unit
  AllLoaded (request t ∷ events) = Loaded t × AllLoaded events
  AllLoaded (forgotten k ∷ events) = AllLoaded events

  abbrev pub Served : List (Event E) → List (Ended E Json) → Type 0
  Served [] [] = Unit
  Served [] (_ ∷ _) = ⊥
  Served (request t ∷ events) [] = ⊥
  Served (request t ∷ events) (r ∷ answers) = P t.key r × Served events answers
  Served (forgotten k ∷ events) answers = Served events answers

module _ {E : Type 0} (parse : Text → Result Json) (stringify : Json → Text)
    (schema : Json → Option Json) (ttl : ℕ) (P : Text → Ended E Json → Type 0)
    (faithful : (k : Text) (v : Json) → P k (returned v) → parse (stringify v) ≡ ok v)
    (kept : (k : Text) (v w : Json) → P k (returned v) → schema v ≡ some w → w ≡ v) where
  upstream-P :
      (k : Text) (joined : Option (Ended E Json)) (own : Ended E Json)
      → JoinedIs P k joined
      → P k own
      → P k (upstream joined own)
  upstream-P k none own j p = p
  upstream-P k (some r) own j p = j

  -- What a read accepts was written for the key.
  read-P :
      (k : Text) (failure : Option Thrown) (entry : Option Text) (w : Json)
      → ((raw : Text) → entry ≡ some raw → (v : Json) × (raw ≡ stringify v) × P k (returned v))
      → valid schema (cache_get_reply parse (reply_of failure entry)) ≡ some w
      → P k (returned w)
  unfolding cache_get_reply
  read-P k (some t) entry w sound e = cc
  read-P k none none w sound e = cc
  read-P k none (some raw) w sound e =
      let (v, written, p) = sound raw refl in
      let back : parse raw ≡ ok v = ap parse written ∙ faithful k v p in
      let same = kept k v w p (rw back at e) in rw same p

  answer-P :
      (t : Turn E) (store : Dict Text) (n : ℕ)
      → IsSound P stringify store
      → Loaded P t
      → P t.key (answer_of (world_of parse stringify schema ttl t store) n)
  answer-P t store zero sound (j, l) = upstream-P t.key t.in_progress t.loaded j l
  answer-P t store (suc n) sound (j, l) =
      let read = cache_get_reply parse (reply_of t.read_failure (get t.key store)) in
      elim (Option-cases (valid schema read)) [
        | inl e ↦ rw (e, answer_of) (upstream-P t.key t.in_progress t.loaded j l)
        | inr (w, e) ↦
            rw (e, answer_of) (read-P t.key t.read_failure (get t.key store) w (sound t.key) e)
      ]

  serve-P :
      (t : Turn E) (store : Dict Text)
      → IsSound P stringify store
      → Loaded P t
      → P t.key (serve parse stringify schema ttl t store).0
  unfolding serve
  serve-P t store sound l =
      subst (P t.key)
        (sym
          (cache_aside_answer (world_of parse stringify schema ttl t store) t.key ttl no_effects))
        (answer-P t store ttl sound l)

  -- What the server holds after the calls of one request.
  abbrev After : World Json E Json → Text → Bool → List (CacheCall Json) → Dict Text → Type 0
  After w k lands calls store =
      (perform_calls stringify lands calls store ≡ store)
      ⊎ ((v : Json) × (w.loaded ≡ returned v)
          × (perform_calls stringify lands calls store ≡ put k (stringify v) store))

  own_load-After :
      (w : World Json E Json) (k : Text) (lands : Bool) (n : ℕ) (store : Dict Text)
      → After w k lands (own_load w k n) store
  unfolding perform_calls perform cache_set_command
  own_load-After w k lands zero store = inl (ground arith)
  own_load-After w k false (suc n) store = inl (ground arith)
  own_load-After w k true (suc n) store = elim (Option-cases w.in_progress) [
    | inl none_yet ↦ elim (Ended-cases w.loaded) [
      | inl (v, e) ↦ inr (v, e, ground arith)
      | inr (t, e) ↦ inl (ground arith)
    ]
    | inr (r, joined) ↦ inl (ground arith)
  ]

  calls_of-After :
      (w : World Json E Json) (k : Text) (lands : Bool) (n : ℕ) (store : Dict Text)
      → After w k lands (calls_of w k n) store
  unfolding perform_calls
  calls_of-After w k lands zero store = own_load-After w k lands zero store
  calls_of-After w k lands (suc n) store = elim (Option-cases (valid w.schema w.read)) [
    | inl e ↦ rw (e, calls_of) (own_load-After w k lands (suc n) store)
    | inr (v, e) ↦ inl (rw (e, calls_of))
  ]

  put-IsSound :
      (k : Text) (v : Json) (store : Dict Text)
      → IsSound P stringify store
      → P k (returned v)
      → IsSound P stringify (put k (stringify v) store)
  put-IsSound k v store sound p j raw e = elim (Bool-cases (text_eq k j)) [
    | inl same ↦
        let here : k ≡ j = (text_eq_iff k j).0 same in
        let found : some (stringify v) ≡ some raw =
          rw (get-put k j (stringify v) store, same) at e in
        (v, cc, subst (λ i. P i (returned v)) here p)
    | inr other ↦ sound j raw (rw (get-put k j (stringify v) store, other) at e)
  ]

  remove-IsSound :
      (k : Text) (store : Dict Text)
      → IsSound P stringify store
      → IsSound P stringify (remove k store)
  remove-IsSound k store sound j raw e = elim (Bool-cases (text_eq k j)) [
    | inl same ↦ let gone : none ≡ some raw = rw (get-remove k j store, same) at e in cc
    | inr other ↦ sound j raw (rw (get-remove k j store, other) at e)
  ]

  serve-IsSound :
      (t : Turn E) (store : Dict Text)
      → IsSound P stringify store
      → Loaded P t
      → IsSound P stringify (serve parse stringify schema ttl t store).1
  unfolding serve
  serve-IsSound t store sound (j, l) =
      let w = world_of parse stringify schema ttl t store in
      rw ((cache_aside_calls w t.key ttl no_effects).0)
        (elim (calls_of-After w t.key t.lands ttl store) [
          | inl e ↦ rw e sound
          | inr (v, e, after) ↦ rw after (put-IsSound t.key v store sound (rw e at l))
        ])

  -- Whatever the requests, their order and the failures of the cache: if each load
  -- of the search engine ends in one of the ways that are right for its key, so does each request, and
  -- what the cache holds at the end is right again.
  pub run-Served :
      (events : List (Event E)) (store : Dict Text)
      → AllLoaded P events
      → IsSound P stringify store
      → Served P events (run parse stringify schema ttl events store).0
        × IsSound P stringify (run parse stringify schema ttl events store).1
  unfolding run perform
  run-Served [] store all sound = (tt, sound)
  run-Served (request t ∷ events) store (l, all) sound =
      let (answers, final) =
        run-Served events (serve parse stringify schema ttl t store).1 all
          (serve-IsSound t store sound l) in
      ((serve-P t store sound l, answers), final)
  run-Served (forgotten k ∷ events) store all sound =
      run-Served events (remove k store) all (remove-IsSound k store sound)
