-- ===== src/Search/Query/Facet.antt =====
-- A facet counts under every filter but its own.
use advanced_search_api.Base.{none, ◌≡◌, refl, ◌↔◌, List, [], ◌∷◌, ◌++◌, All}
use advanced_search_api.Search.{SearchFilters}
use advanced_search_api.Search.Query.{
  FacetDimension, category, subcategories, location, price, Clause, term_clause, terms_clause,
  build_price_range, build_filter_clauses, Aggregation, FacetAggregations, build_facet_aggregations,
}

-- The aggregation of a dimension, the filter's own clauses for it, and the same filter without it.
abbrev pub facet_of : FacetDimension → FacetAggregations → Aggregation
facet_of category a = a.categories
facet_of subcategories a = a.subcategories
facet_of location a = a.locations
facet_of price a = a.price_ranges

unfoldable pub own_clauses : FacetDimension → SearchFilters → List Clause
unfolding build_price_range
own_clauses category f = term_clause category f.category
own_clauses subcategories f = terms_clause f.subcategories
own_clauses location f = term_clause location f.location
own_clauses price f = build_price_range f.min_price f.max_price

unfoldable pub widened : FacetDimension → SearchFilters → SearchFilters
widened category f = record f { category = none }
widened subcategories f = record f { subcategories = none }
widened location f = record f { location = none }
widened price f = record f { min_price = none; max_price = none }

module _ (P : Clause → Type 0) where
  All-append_iff : (xs ys : List Clause) → All P (xs ++ ys) ↔ (All P xs × All P ys)
  All-append_iff [] ys = (λ h. (tt, h), λ h. h.1)
  All-append_iff (x ∷ xs) ys =
      let (split, glue) = All-append_iff xs ys in
      (λ h. ((h.0, (split h.1).0), (split h.1).1), λ h. (h.0.0, glue (h.0.1, h.1)))

  -- What is taken out of a list can be taken out behind another one.
  All-append_under :
      (Q : Type 0) (xs ys zs : List Clause)
      → (All P ys ↔ (Q × All P zs))
      → All P (xs ++ ys) ↔ (Q × All P (xs ++ zs))
  All-append_under Q [] ys zs h = h
  All-append_under Q (x ∷ xs) ys zs h =
      let (out, back) = All-append_under Q xs ys zs h in
      (λ k. ((out k.1).0, (k.0, (out k.1).1)), λ k. (k.1.0, back (k.0, k.1.1)))

-- Whatever a clause may ask of a document: a document passes the filter on the hits exactly if it
-- passes the filter of a dimension's facet and the clauses of that dimension itself; and the facet's
-- filter is the filter on the hits of the same search with nothing selected in that dimension, so
-- another selection there leaves the facet's counts alone.
pub facet_of-widened :
    (asks : Clause → Type 0) (d : FacetDimension) (f : SearchFilters)
    → (All asks (build_filter_clauses f none)
        ↔ (All asks (own_clauses d f) × All asks (facet_of d (build_facet_aggregations f)).filter))
      × ((facet_of d (build_facet_aggregations f)).filter ≡ build_filter_clauses (widened d f) none)
unfolding build_filter_clauses build_facet_aggregations own_clauses widened
facet_of-widened asks category f = (All-append_iff asks (term_clause category f.category) _, refl)
facet_of-widened asks subcategories f = (
  All-append_under asks _ (term_clause category f.category) _ _
      (All-append_iff asks (terms_clause f.subcategories) _),
  refl,
)
facet_of-widened asks location f = (
  All-append_under asks _ (term_clause category f.category) _ _ (
      All-append_under asks _ (terms_clause f.subcategories) _ _
        (All-append_iff asks (term_clause location f.location) _)),
  refl,
)
facet_of-widened asks price f = (
  All-append_under asks _ (term_clause category f.category) _ _ (
      All-append_under asks _ (terms_clause f.subcategories) _ _
        (All-append_under asks _ (term_clause location f.location) _ _ (λ h. (h, tt), λ h. h.0))),
  refl,
)
