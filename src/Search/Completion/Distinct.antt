-- ===== src/Search/Completion/Distinct.antt =====
-- Completions and suggestions are the texts of the answer without repetition, in their order.
use advanced_search_api.Base.{
  Text, Option, none, some, Bool, true, false, not, ◌&&◌, ◌||◌, ◌≡◌, refl, sym, ◌∙◌, ap, inl, inr,
  List, [], ◌∷◌, ◌++◌, map, if◌then◌else◌, keep, text_eq, text_eq_iff, arith, append_assoc,
  Bool-cases, append-nil, ◌or◌,
}
use advanced_search_api.Domain.{fraction}
use advanced_search_api.Search.Completion.{
  has, add, SuggestEntry, add_options, add_entries, collect_terms, NameHit, AutocompleteItem,
  items_from, to_autocomplete_items, item_of,
}

-- The first occurrence of each text.
unfoldable pub firsts : List Text → List Text
unfolding keep
firsts [] = []
firsts (t ∷ ts) = t ∷ keep (λ u. not (text_eq t u)) (firsts ts)

abbrev pub new_to : List Text → Text → Bool
new_to set t = not (has t set)

keep-keep : (p q : Text → Bool) (l : List Text) → keep p (keep q l) ≡ keep (λ t. q t && p t) l
unfolding keep
keep-keep p q [] = refl
keep-keep p q (t ∷ l) = ground (arith, keep-keep p q l)

keep_same : (p q : Text → Bool) (l : List Text) → ((t : Text) → p t ≡ q t) → keep p l ≡ keep q l
unfolding keep
keep_same p q [] h = refl
keep_same p q (t ∷ l) h = ground (arith, h t, keep_same p q l h)

has-append : (t u : Text) (set : List Text) → has t (set ++ u ∷ []) ≡ (has t set || text_eq u t)
unfolding has
has-append t u [] = ground arith
has-append t u (v ∷ set) = ground (arith, has-append t u set)

keep-firsts_nil : (p : Text → Bool) → keep p (firsts []) ≡ []
unfolding keep firsts
keep-firsts_nil p = refl

-- A text that was there already changes nothing.
keep-firsts_old :
    (t : Text) (set ts : List Text)
    → has t set ≡ true
    → keep (new_to set) (firsts (t ∷ ts)) ≡ keep (new_to set) (firsts ts)
unfolding firsts
keep-firsts_old t set ts h =
    rw (keep, h)
      (keep-keep (new_to set) (λ u. not (text_eq t u)) (firsts ts)
        ∙ keep_same _ (new_to set) (firsts ts) λ u. ground (arith, text_eq_iff t u))

keep-firsts_new :
    (t : Text) (set ts : List Text)
    → has t set ≡ false
    → keep (new_to set) (firsts (t ∷ ts)) ≡ t ∷ keep (new_to (set ++ t ∷ [])) (firsts ts)
unfolding firsts
keep-firsts_new t set ts h =
    rw (keep, h)
      (ap (λ l. t ∷ l)
        (keep-keep (new_to set) (λ u. not (text_eq t u)) (firsts ts)
          ∙ keep_same _ (new_to (set ++ t ∷ [])) (firsts ts)
              λ u. ground (arith, has-append u t set)))

-- The names of the hits that have one that is not empty.
abbrev named : Option Text → List Text → List Text
named none names = names
named (some []) names = names
named (some (c ∷ s)) names = (c ∷ s) ∷ names

unfoldable pub names_of : List NameHit → List Text
names_of [] = []
names_of (h ∷ hs) = named h.name (names_of hs)

abbrev pub texts_of_items : List AutocompleteItem → List Text
texts_of_items items = map (λ i. i.text) items

items_from-firsts :
    (hs : List NameHit) (seen : List Text)
    → texts_of_items (items_from seen hs) ≡ keep (new_to seen) (firsts (names_of hs))
unfolding items_from names_of add
items_from-firsts [] seen = sym (keep-firsts_nil (new_to seen))
items_from-firsts (h ∷ hs) seen = go (items_from-firsts hs) h.name
  where
    go :
        ((set : List Text)
          → texts_of_items (items_from set hs) ≡ keep (new_to set) (firsts (names_of hs)))
        → (name : Option Text)
        → texts_of_items (
            item_of name (items_from seen hs) (λ t.
              if has t seen
              then items_from seen hs
              else record { text = t; score = h.score or fraction 0 0 }
                ∷ items_from (add t seen) hs))
          ≡ keep (new_to seen) (firsts (named name (names_of hs)))
    go known none = known seen
    go known (some []) = known seen
    go known (some (c ∷ s)) = elim (Bool-cases (has (c ∷ s) seen)) [
      | inl old ↦ rw old (known seen ∙ sym (keep-firsts_old (c ∷ s) seen (names_of hs) old))
      | inr new ↦ rw new (
          ap (λ l. (c ∷ s) ∷ l) (known (seen ++ (c ∷ s) ∷ []))
          ∙ sym (keep-firsts_new (c ∷ s) seen (names_of hs) new))
    ]

new_to_nothing : (ts : List Text) → keep (new_to []) ts ≡ ts
unfolding keep has
new_to_nothing [] = refl
new_to_nothing (t ∷ ts) = ground (arith, new_to_nothing ts)

add_options-firsts :
    (ts set : List Text) → add_options ts set ≡ set ++ keep (new_to set) (firsts ts)
unfolding add_options add
add_options-firsts [] set = sym (ap (λ l. set ++ l) (keep-firsts_nil (new_to set)) ∙ append-nil set)
add_options-firsts (t ∷ ts) set = elim (Bool-cases (has t set)) [
  | inl old ↦ rw (old, keep-firsts_old t set ts old) (add_options-firsts ts set)
  | inr new ↦
      rw (new, keep-firsts_new t set ts new)
        (add_options-firsts ts (set ++ t ∷ []) ∙ append_assoc set (t ∷ []) _)
]

-- The texts of all entries, one after the other.
unfoldable pub texts_of_entries : List SuggestEntry → List Text
texts_of_entries [] = []
texts_of_entries (none ∷ es) = texts_of_entries es
texts_of_entries (some ts ∷ es) = ts ++ texts_of_entries es

add_options-append :
    (ts us set : List Text) → add_options (ts ++ us) set ≡ add_options us (add_options ts set)
unfolding add_options
add_options-append [] us set = refl
add_options-append (t ∷ ts) us set = add_options-append ts us (add t set)

add_entries-texts_of_entries :
    (es : List SuggestEntry) (set : List Text)
    → add_entries es set ≡ add_options (texts_of_entries es) set
unfolding add_entries texts_of_entries add_options
add_entries-texts_of_entries [] set = refl
add_entries-texts_of_entries (none ∷ es) set = add_entries-texts_of_entries es set
add_entries-texts_of_entries (some ts ∷ es) set =
    add_entries-texts_of_entries es (add_options ts set)
    ∙ sym (add_options-append ts (texts_of_entries es) set)

-- The completions are the names of the hits, each once, in the order of the hits; a hit without a name,
-- or with an empty one, gives none.
pub to_autocomplete_items-firsts :
    (hs : List NameHit) → texts_of_items (to_autocomplete_items hs) ≡ firsts (names_of hs)
unfolding to_autocomplete_items
to_autocomplete_items-firsts hs = items_from-firsts hs [] ∙ new_to_nothing (firsts (names_of hs))

-- The related terms are the texts of all options, each once, in their order.
pub collect_terms-firsts :
    (es : List SuggestEntry) → collect_terms (some es) ≡ firsts (texts_of_entries es)
unfolding collect_terms
collect_terms-firsts es =
    add_entries-texts_of_entries es []
    ∙ add_options-firsts (texts_of_entries es) []
    ∙ new_to_nothing (firsts (texts_of_entries es))
