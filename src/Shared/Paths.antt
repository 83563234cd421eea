-- ===== src/Shared/Paths.antt =====
-- src/shared/operator-paths.ts: matching a request path against a list of known paths.
pub mod Matching
use advanced_search_api.Base.{
  ℕ, zero, suc, Text, str, Option, none, some, Bool, ◌||◌, List, [], ◌∷◌, ◌++◌, ◌==◌, if◌then◌else◌,
  text_eq, starts_with, any,
}
use mathlib.Core.Option

-- `String.prototype.indexOf` of one character, and `slice(0, n)`.
unfoldable pub index_of : ℕ → Text → Option ℕ
index_of c [] = none
index_of c (x ∷ s) = let rest = Option.map suc (index_of c s) in if x == c then some 0 else rest

unfoldable pub slice_to : ℕ → Text → Text
slice_to zero s = []
slice_to (suc n) [] = []
slice_to (suc n) (x ∷ s) = x ∷ slice_to n s

abbrev pub operator_paths : List Text
operator_paths = str "/health" ∷ str "/metrics" ∷ []

unfoldable pub path_without_query : Text → Text
unfolding index_of slice_to
path_without_query path = elim (index_of b'?' path) [ none ↦ path | some i ↦ slice_to i path ]

unfoldable pub matches_path : Text → List Text → Bool
unfolding any path_without_query text_eq starts_with
matches_path path prefixes =
    let without_query = path_without_query path in
    any (λ p. text_eq without_query p || starts_with without_query (p ++ str "/")) prefixes
