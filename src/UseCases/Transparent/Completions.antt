-- ===== src/UseCases/Transparent/Completions.antt =====
-- Completing through the cache, over the autocomplete adapter.
use advanced_search_api.Base.{
  ℕ, Text, Option, none, some, Bool, true, false, ◌≡◌, refl, ap, ◌∙◌, subst, List, [], ◌∷◌, All,
  length, if◌then◌else◌, ◌or◌,
}
use advanced_search_api.Base.Trim.{trim}
use advanced_search_api.Json.{Json}
use advanced_search_api.Domain.{Number, fraction}
use advanced_search_api.Shared.{Thrown, Result, ok, thrown, Ended, returned}
use advanced_search_api.Search.Completion.{
  NameHit, AutocompleteItem, AutocompleteRequest, build_autocomplete_request, complete, completed,
  to_autocomplete_items, items_from, has, add, item_of,
}
use advanced_search_api.Search.Keys.{build_autocomplete_cache_key}
use advanced_search_api.Search.Keys.Prefixes.{build_autocomplete_cache_key_sound}
use advanced_search_api.UseCases.{
  CachedUseCase, as_json, completed_of, accepted, schema_of, autocomplete_execute,
}
use advanced_search_api.UseCases.Payload.{Zod, autocomplete_items_schema}
use advanced_search_api.UseCases.Payload.Values.{completions_json, IsFinite, IsFiniteScore}
use advanced_search_api.UseCases.Payload.Accepted.{autocomplete_items_schema_accepts}
use advanced_search_api.UseCases.Transparent.{
  Step, answers_of, uncached, IsRun, answers_of-uncached,
}

abbrev FiniteItems : List AutocompleteItem → Type 0
FiniteItems items = All (λ (i : AutocompleteItem). IsFinite i.score) items

abbrev FiniteHits : List NameHit → Type 0
FiniteHits hits = All (λ (h : NameHit). IsFiniteScore h.score) hits

if_finite :
    (b : Bool) (xs ys : List AutocompleteItem)
    → FiniteItems xs
    → FiniteItems ys
    → FiniteItems (if b then xs else ys)
if_finite true xs ys x y = x
if_finite false xs ys x y = y

item_of-finite :
    (name : Option Text) (others : List AutocompleteItem) (next : Text → List AutocompleteItem)
    → FiniteItems others
    → ((t : Text) → FiniteItems (next t))
    → FiniteItems (item_of name others next)
item_of-finite none others next o f = o
item_of-finite (some []) others next o f = o
item_of-finite (some (c ∷ s)) others next o f = f (c ∷ s)

score-IsFinite : (score : Option Number) → IsFiniteScore score → IsFinite (score or fraction 0 0)
score-IsFinite none h = tt
score-IsFinite (some n) h = h

items_from-finite :
    (seen : List Text) (hits : List NameHit) → FiniteHits hits → FiniteItems (items_from seen hits)
unfolding items_from
items_from-finite seen [] finite = tt
items_from-finite seen (h ∷ hs) (f, finite) =
    item_of-finite h.name _ _ (items_from-finite seen hs finite) (λ name.
      if_finite (has name seen) _ _ (items_from-finite seen hs finite)
        (score-IsFinite h.score f, items_from-finite (add name seen) hs finite))

completed-finite :
    (reply : Result (List NameHit))
    → ((hits : List NameHit) → reply ≡ ok hits → FiniteHits hits)
    → (items : List AutocompleteItem) → completed reply ≡ ok items
    → FiniteItems items
unfolding to_autocomplete_items
completed-finite (thrown e) finite items is = absurd (cc)
completed-finite (ok hits) finite items is =
    let same : to_autocomplete_items hits ≡ items = cc in
    subst FiniteItems same (items_from-finite [] hits (finite hits refl))

module _ (z : Zod) (parse : Text → Result Json) (stringify : Json → Text)
    (lower digest : Text → Text) (client : AutocompleteRequest → Result (List NameHit))
    (use_case : CachedUseCase) where
  -- The answer of the adapter alone.
  abbrev pub completions_of : Text × ℕ → Ended Thrown Json
  completions_of (prefix, limit) =
      as_json completions_json (completed_of (complete client prefix limit))

  abbrev pub prefix_key : Text × ℕ → Text
  prefix_key (prefix, limit) =
      build_autocomplete_cache_key lower digest prefix limit use_case.cache_scope

  -- The engine completes a prefix whatever its case and its outer spaces.
  abbrev pub CaseBlind : Type 0
  CaseBlind =
      (p q : Text) (limit : ℕ)
      → lower (trim p) ≡ lower (trim q)
      → client (build_autocomplete_request p limit) ≡ client (build_autocomplete_request q limit)

  abbrev pub SendsFiniteScores : Type 0
  SendsFiniteScores =
      (r : AutocompleteRequest) (hits : List NameHit) → client r ≡ ok hits → FiniteHits hits

  kept_items :
      (finite : SendsFiniteScores) (p : Text) (limit : ℕ) (v w : Json)
      (r : Result (List AutocompleteItem))
      → complete client p limit ≡ r
      → as_json completions_json (completed_of r) ≡ returned v
      → schema_of z (autocomplete_items_schema z) v ≡ some w
      → w ≡ v
  unfolding complete
  kept_items finite p limit v w (thrown e) is is_v passed = absurd (cc)
  kept_items finite p limit v w (ok items) is is_v passed =
      let scores = completed-finite _ (finite _) items is in
      let taken = autocomplete_items_schema_accepts z items scores in
      let is_items : completions_json items ≡ v = cc in
      let same =
        subst (λ x. schema_of z (autocomplete_items_schema z) x ≡ some x) is_items
          (ap accepted taken) in
      cc

  module _ (Within : Text × ℕ → Type 0) (blind : CaseBlind)
      (lengths : (a b : Text × ℕ)
        → Within a
        → Within b
        → length (digest (lower (trim a.0))) ≡ length (digest (lower (trim b.0))))
      (apart : (a b : Text × ℕ)
        → Within a
        → Within b
        → digest (lower (trim a.0)) ≡ digest (lower (trim b.0))
        → lower (trim a.0) ≡ lower (trim b.0)) where
    one_answer :
        (a b : Text × ℕ)
        → Within a
        → Within b
        → prefix_key a ≡ prefix_key b
        → complete client a.0 a.1 ≡ complete client b.0 b.1
    unfolding complete
    one_answer (p, n) (q, m) v w e =
        let (prefixes, limits) =
          build_autocomplete_cache_key_sound lower digest use_case.cache_scope p q n m
            (lengths (p, n) (q, m) v w) (apart (p, n) (q, m) v w) e in
        ap completed
          (blind p q n prefixes ∙ ap (λ k. client (build_autocomplete_request q k)) limits)

    -- In any run of completions through the cache, from an empty cache on, whatever reads and
    -- writes fail, whichever entries are lost and whichever loads of the same key are joined, each prefix is
    -- answered as Elasticsearch answers it without a cache. The engine is taken to read a prefix whatever
    -- its case and outer spaces and to send finite scores; on the prefixes of the run,
    -- answers survive being written as JSON, and the digests have one length and do not collide.
    pub autocomplete_execute_transparent :
        ((a : Text × ℕ) (v : Json)
          → Within a
          → completions_of a ≡ returned v
          → parse (stringify v) ≡ ok v)
        → SendsFiniteScores
        → (steps : List (Step (Text × ℕ))) → IsRun Within prefix_key steps
        → answers_of
            (autocomplete_execute z parse stringify lower digest (complete client) use_case)
            steps
            []
          ≡ uncached completions_of steps
    unfolding autocomplete_execute
    autocomplete_execute_transparent faithful finite steps run_is =
        answers_of-uncached parse stringify (schema_of z (autocomplete_items_schema z))
          use_case.ttl_seconds prefix_key completions_json
          (λ (p, n). completed_of (complete client p n)) Within
          (λ a b v w e. ap completed_of (one_answer a b v w e)) faithful
          (λ (p, n) v w is_v passed. kept_items finite p n v w _ refl is_v passed) steps run_is
