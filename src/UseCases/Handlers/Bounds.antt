-- ===== src/UseCases/Handlers/Bounds.antt =====
-- The size of a completion.
use advanced_search_api.Base.{
  ℕ, ◌≤◌, Text, Option, none, some, Bool, true, false, List, [], ◌∷◌, length, ◌or◌, ◌≡◌, refl,
  subst, arith, if◌then◌else◌,
}
use advanced_search_api.Shared.{Result, ok, thrown}
use advanced_search_api.Search.Completion.{
  AutocompleteItem, NameHit, AutocompleteRequest, build_autocomplete_request, complete, completed,
  to_autocomplete_items, items_from, item_of, has, add,
}
use advanced_search_api.UseCases.Handlers.{
  AutocompleteQueryDto, limit_is_valid, autocomplete_is_valid, default_limit, complete_handler,
}

limit_bounds :
    (limit : Option ℕ)
    → limit_is_valid limit ≡ true
    → (1 ≤ (limit or default_limit)) × ((limit or default_limit) ≤ 20)
limit_bounds none h = (omega arith, omega arith)
limit_bounds (some n) h = ground arith

if_le :
    (b : Bool) (xs ys : List AutocompleteItem) (n : ℕ)
    → length xs ≤ n
    → length ys ≤ n
    → length (if b then xs else ys) ≤ n
if_le true xs ys n x y = x
if_le false xs ys n x y = y

item_of_le :
    (name : Option Text) (others : List AutocompleteItem) (next : Text → List AutocompleteItem)
    (n : ℕ)
    → length others ≤ n
    → ((t : Text) → length (next t) ≤ n)
    → length (item_of name others next) ≤ n
item_of_le none others next n o f = o
item_of_le (some []) others next n o f = o
item_of_le (some (c ∷ s)) others next n o f = f (c ∷ s)

length-items_from :
    (seen : List Text) (hits : List NameHit) → length (items_from seen hits) ≤ length hits
unfolding items_from
length-items_from seen [] = omega arith
length-items_from seen (h ∷ hs) =
    item_of_le h.name _ _ _ (omega (arith, length-items_from seen hs)) (λ name.
      if_le (has name seen) _ _ _ (omega (arith, length-items_from seen hs))
        (omega (arith, length-items_from (add name seen) hs)))

answered_bounded :
    (reply : Result (List NameHit)) (items : List AutocompleteItem)
    → completed reply ≡ ok items
    → (hits : List NameHit) × (reply ≡ ok hits) × (length items ≤ length hits)
unfolding to_autocomplete_items
answered_bounded (thrown e) items is = absurd (cc)
answered_bounded (ok hits) items is =
    let same : to_autocomplete_items hits ≡ items = cc in
    (hits, refl, subst (λ xs. length xs ≤ length hits) same (length-items_from [] hits))

-- A valid completion request asks Elasticsearch, for its own prefix, for 1 to 20 hits, 10 if it names no
-- limit, and where it is answered it has at most one item for each hit of the reply.
pub complete_handler-bounded :
    (client : AutocompleteRequest → Result (List NameHit)) (dto : AutocompleteQueryDto)
    → autocomplete_is_valid dto ≡ true
    → (limit : ℕ) × (limit ≡ dto.limit or default_limit)
      × (1 ≤ limit)
      × (limit ≤ 20)
      × ((items : List AutocompleteItem)
          → complete_handler (complete client) dto ≡ ok items
          → (hits : List NameHit) × (client (build_autocomplete_request dto.q limit) ≡ ok hits)
            × (length items ≤ length hits))
unfolding autocomplete_is_valid complete_handler complete
complete_handler-bounded client dto valid =
    let (low, high) = limit_bounds dto.limit (ground arith) in
    (
      dto.limit or default_limit,
      refl,
      low,
      high,
      answered_bounded (client (build_autocomplete_request dto.q (dto.limit or default_limit))),
    )
