-- ===== src/Shared/Paths/Matching.antt =====
-- When a path matches a list of known paths.
use advanced_search_api.Base.{
  Text, str, ◌≡◌, ◌≢◌, refl, sym, ◌∙◌, ◌⊎◌, inl, inr, ◌↔◌, true, ◌||◌, Bool-cases, List, [], ◌∷◌,
  ◌++◌, arith, any, All, text_eq, text_eq_iff, starts_with, starts_with_iff, append_assoc, none,
}
use advanced_search_api.Shared.Paths.{index_of, path_without_query, matches_path}

abbrev pub NoQuery : Text → Type 0
NoQuery s = All (λ c. c ≢ b'?') s

pub path_without_query-NoQuery : (s : Text) → NoQuery s → path_without_query s ≡ s
unfolding path_without_query
path_without_query-NoQuery s h = rw (absent s h, path_without_query)
  where
    absent : (s : Text) → NoQuery s → index_of b'?' s ≡ none
    absent [] h = refl
    absent (c ∷ s) (n, h) = ground (arith, absent s h)

pub path_without_query_cut : (s q : Text) → NoQuery s → path_without_query (s ++ b'?' ∷ q) ≡ s
unfolding path_without_query
path_without_query_cut [] q h = refl
path_without_query_cut (c ∷ s) q (n, h) = ground (arith, path_without_query_cut s q h)

-- The path is one of the known ones, or lies below one: a longer word is no match.
abbrev pub IsBelow : Text → Text → Type 0
IsBelow path known = (path ≡ known) ⊎ ((rest : Text) × (path ≡ known ++ b'/' ∷ rest))

abbrev pub IsBelowAny : Text → List Text → Type 0
IsBelowAny path [] = ⊥
IsBelowAny path (known ∷ more) = IsBelow path known ⊎ IsBelowAny path more

test_sound :
    (path known : Text)
    → (text_eq path known || starts_with path (known ++ str "/")) ≡ true
    → IsBelow path known
test_sound path known h = elim (Bool-cases (text_eq path known)) [
  | inl e ↦ inl ((text_eq_iff path known).0 e)
  | inr n ↦
      let (rest, e) = (starts_with_iff path (known ++ str "/")).0 (ground arith) in
      inr (rest, e ∙ append_assoc known (str "/") rest)
]

test_complete :
    (path known : Text)
    → IsBelow path known
    → (text_eq path known || starts_with path (known ++ str "/")) ≡ true
test_complete path known (inl e) = ground (arith, text_eq_iff path known)
test_complete path known (inr (rest, e)) =
    let found =
      (starts_with_iff path (known ++ str "/")).1
        (rest, e ∙ sym (append_assoc known (str "/") rest)) in
    ground arith

any_sound :
    (path : Text) (ks : List Text)
    → any (λ p. text_eq path p || starts_with path (p ++ str "/")) ks ≡ true
    → IsBelowAny path ks
unfolding any
any_sound path [] h = cc
any_sound path (k ∷ ks) h = elim (Bool-cases (text_eq path k || starts_with path (k ++ str "/"))) [
  | inl e ↦ inl (test_sound path k e)
  | inr n ↦ inr (any_sound path ks (ground arith))
]

any_complete :
    (path : Text) (ks : List Text)
    → IsBelowAny path ks
    → any (λ p. text_eq path p || starts_with path (p ++ str "/")) ks ≡ true
unfolding any
any_complete path [] h = absurd h
any_complete path (k ∷ ks) (inl b) = rw (test_complete path k b)
any_complete path (k ∷ ks) (inr b) = ground (arith, any_complete path ks b)

-- A path, whatever its query string, matches a list of known paths exactly if the part before the
-- first "?" is one of them or continues one of them by "/".
pub matches_path_iff :
    (path : Text) (ks : List Text)
    → (matches_path path ks ≡ true) ↔ IsBelowAny (path_without_query path) ks
unfolding matches_path
matches_path_iff path ks =
    (any_sound (path_without_query path) ks, any_complete (path_without_query path) ks)

-- A query string changes nothing.
pub matches_path_query :
    (s q : Text) (ks : List Text) → NoQuery s → matches_path (s ++ b'?' ∷ q) ks ≡ matches_path s ks
unfolding matches_path
matches_path_query s q ks h = rw (path_without_query_cut s q h, path_without_query-NoQuery s h)
