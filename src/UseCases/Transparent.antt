-- ===== src/UseCases/Transparent.antt =====
-- The cache is transparent: in any run, cached answers are those of the search engine.
pub mod Searches
pub mod Completions
use advanced_search_api.Base.{
  ℕ, Text, Option, none, some, ◌≡◌, refl, sym, ap, ◌∙◌, subst, List, [], ◌∷◌,
}
use mathlib.Core.Option
use advanced_search_api.Base.Dict.{Dict, remove, get}
use advanced_search_api.Json.{Json}
use advanced_search_api.Shared.{Result, ok, Ended, returned, raised}
use advanced_search_api.Cache.Store.Runs.{Turn, Event, request, forgotten, serve, run, perform}
use advanced_search_api.Cache.Store.Sound.{Served, AllLoaded, JoinedIs, IsSound, run-Served}
use advanced_search_api.UseCases.{Circumstances, as_json, turn_of}

-- A request, or the loss of an entry.
pub data Step (Asked : Type 0) : Type 0 where
  ask : Asked → Circumstances Asked → Step Asked
  lose : Text → Step Asked

module _ {E Asked : Type 0} where
  -- The answers to the requests, one after another, from what the cache holds.
  unfoldable pub answers_of :
      (Asked → Circumstances Asked → Dict Text → Ended E Json × Dict Text)
      → List (Step Asked)
      → Dict Text
      → List (Ended E Json)
  answers_of execute [] store = []
  answers_of execute (ask asked met ∷ steps) store =
      let (answer, store') = execute asked met store in answer ∷ answers_of execute steps store'
  answers_of execute (lose key ∷ steps) store = answers_of execute steps (remove key store)

  -- The answers without a cache.
  abbrev pub uncached : (Asked → Ended E Json) → List (Step Asked) → List (Ended E Json)
  uncached answer [] = []
  uncached answer (ask asked met ∷ steps) = answer asked ∷ uncached answer steps
  uncached answer (lose key ∷ steps) = uncached answer steps

module _ {Asked : Type 0} where
  abbrev JoinsOwn : (Asked → Type 0) → (Asked → Text) → Text → Option Asked → Type 0
  JoinsOwn Within key k none = Unit
  JoinsOwn Within key k (some a) = Within a × (key a ≡ k)

  -- Each request is within a set, and a load in progress that it joins is one of its key.
  abbrev pub IsRun : (Asked → Type 0) → (Asked → Text) → List (Step Asked) → Type 0
  IsRun Within key [] = Unit
  IsRun Within key (ask asked met ∷ steps) =
      Within asked × JoinsOwn Within key (key asked) met.in_progress × IsRun Within key steps
  IsRun Within key (lose k ∷ steps) = IsRun Within key steps

module _ {E A Asked : Type 0} (parse : Text → Result Json) (stringify : Json → Text)
    (schema : Json → Option Json) (ttl : ℕ) (key : Asked → Text) (to_json : A → Json)
    (answer : Asked → Ended E A) where
  abbrev pub answer_json : Asked → Ended E Json
  answer_json a = as_json to_json (answer a)

  abbrev pub cached_execute : Asked → Circumstances Asked → Dict Text → Ended E Json × Dict Text
  cached_execute a met store =
      serve parse stringify schema ttl (turn_of to_json answer (key a) a met) store

  abbrev events_of : List (Step Asked) → List (Event E)
  events_of [] = []
  events_of (ask a met ∷ steps) = request (turn_of to_json answer (key a) a met) ∷ events_of steps
  events_of (lose k ∷ steps) = forgotten k ∷ events_of steps

  answers_of-run :
      (steps : List (Step Asked)) (store : Dict Text)
      → answers_of cached_execute steps store
        ≡ (run parse stringify schema ttl (events_of steps) store).0
  unfolding answers_of run perform
  answers_of-run [] store = refl
  answers_of-run (ask a met ∷ steps) store =
      ap (λ rest. (cached_execute a met store).0 ∷ rest)
        (answers_of-run steps (cached_execute a met store).1)
  answers_of-run (lose k ∷ steps) store = answers_of-run steps (remove k store)

  module _ (Within : Asked → Type 0) where
    -- What is right for a key: an answer to something that is asked under it.
    abbrev RightFor : Text → Ended E Json → Type 0
    RightFor k r = (a : Asked) × Within a × (key a ≡ k) × (answer_json a ≡ r)

    joined_right :
        (k : Text) (joined : Option Asked)
        → JoinsOwn Within key k joined
        → JoinedIs RightFor k (Option.map answer_json joined)
    joined_right k none h = tt
    joined_right k (some a) (w, e) = (a, w, e, refl)

    loads_right :
        (steps : List (Step Asked)) → IsRun Within key steps → AllLoaded RightFor (events_of steps)
    loads_right [] h = tt
    loads_right (ask a met ∷ steps) (w, j, h) =
        ((joined_right (key a) met.in_progress j, (a, w, refl, refl)), loads_right steps h)
    loads_right (lose k ∷ steps) h = loads_right steps h

    module _
        (same : (a b : Asked) → Within a → Within b → key a ≡ key b → answer a ≡ answer b) where
      Served-uncached :
          (steps : List (Step Asked)) (answers : List (Ended E Json))
          → IsRun Within key steps
          → Served RightFor (events_of steps) answers
          → answers ≡ uncached answer_json steps
      Served-uncached [] [] run_is h = refl
      Served-uncached [] (r ∷ rs) run_is h = absurd h
      Served-uncached (ask a met ∷ steps) [] run_is h = absurd h
      Served-uncached (ask a met ∷ steps) (r ∷ rs) (w, j, run_is) ((b, v, one_key, right), h) =
          let first : r ≡ answer_json a = sym right ∙ ap (as_json to_json) (same b a v w one_key) in
          let rest = Served-uncached steps rs run_is h in cc
      Served-uncached (lose k ∷ steps) rs run_is h = Served-uncached steps rs run_is h

      none_held :
          (k raw : Text)
          → get k [] ≡ some raw
          → (v : Json) × (raw ≡ stringify v) × RightFor k (returned v)
      unfolding get
      none_held k raw e = absurd (cc)

      module _
          (faithful : (a : Asked) (v : Json)
            → Within a
            → answer_json a ≡ returned v
            → parse (stringify v) ≡ ok v)
          (kept : (a : Asked) (v w : Json)
            → answer_json a ≡ returned v
            → schema v ≡ some w
            → w ≡ v) where
        pub answers_of-uncached :
            (steps : List (Step Asked))
            → IsRun Within key steps
            → answers_of cached_execute steps [] ≡ uncached answer_json steps
        answers_of-uncached steps run_is =
            answers_of-run steps []
            ∙ Served-uncached steps _ run_is
                (run-Served parse stringify schema ttl RightFor
                  (λ k v right. faithful right.0 v right.1 right.3)
                  (λ k v w right e. kept right.0 v w right.3 e) (events_of steps) []
                  (loads_right steps run_is) none_held).0
