-- ===== src/Search/Completion.antt =====
-- src/infrastructure/elasticsearch/suggestion and autocomplete: suggestions and completions, each text
-- once.
pub mod Distinct
use advanced_search_api.Base.{
  ℕ, Text, str, Option, none, some, Bool, true, false, List, [], ◌∷◌, ◌++◌, if◌then◌else◌, any,
  text_eq, ◌or◌,
}
use advanced_search_api.Shared.{Result, ok, thrown}
use advanced_search_api.Domain.{Number, fraction}
use advanced_search_api.Search.{SearchSuggestions}

-- `Set.prototype.has`, on the texts of a set in the order in which they were added.
unfoldable pub has : Text → List Text → Bool
unfolding any text_eq
has t set = any (λ u. text_eq u t) set

unfoldable pub add : Text → List Text → List Text
unfolding has
add t set = if has t set then set else set ++ t ∷ []

-- An entry's optional options, each by its text.
abbrev pub SuggestEntry : Type 0
SuggestEntry = Option (List Text)

pub record SuggestBlock : Type 0 where
  pub did_you_mean : Option (List SuggestEntry)
  pub related : Option (List SuggestEntry)

unfoldable pub first_option : Option (List SuggestEntry) → Option Text
first_option none = none
first_option (some []) = none
first_option (some (none ∷ _)) = none
first_option (some (some [] ∷ _)) = none
first_option (some (some (t ∷ _) ∷ _)) = some t

unfoldable pub add_options : List Text → List Text → List Text
unfolding add
add_options [] set = set
add_options (t ∷ ts) set = add_options ts (add t set)

unfoldable pub add_entries : List SuggestEntry → List Text → List Text
unfolding add_options
add_entries [] set = set
add_entries (none ∷ es) set = add_entries es set
add_entries (some ts ∷ es) set = add_entries es (add_options ts set)

unfoldable pub collect_terms : Option (List SuggestEntry) → List Text
unfolding add_entries
collect_terms entries = add_entries (entries or []) []

unfoldable pub to_suggestions : Option SuggestBlock → SearchSuggestions
unfolding first_option collect_terms
to_suggestions none = record { did_you_mean = first_option none; related = collect_terms none }
to_suggestions (some b) = record {
  did_you_mean = first_option b.did_you_mean;
  related = collect_terms b.related;
}

-- A hit of the completion search: the name, if there is a source with one, and the score.
pub record NameHit : Type 0 where
  pub name : Option Text
  pub score : Option Number

pub record AutocompleteItem : Type 0 where
  pub text : Text
  pub score : Number

-- A hit without a name, or with an empty one, is passed over.
abbrev pub item_of :
    Option Text → List AutocompleteItem → (Text → List AutocompleteItem) → List AutocompleteItem
item_of none others next = others
item_of (some []) others next = others
item_of (some (c ∷ s)) others next = next (c ∷ s)

-- The loop over the hits, from the names that were seen.
unfoldable pub items_from : List Text → List NameHit → List AutocompleteItem
unfolding has add
items_from seen [] = []
items_from seen (h ∷ hs) =
    let others = items_from seen hs in
    item_of h.name others (λ name.
      let rest = items_from (add name seen) hs in
      if has name seen
      then others
      else record { text = name; score = h.score or fraction 0 0 } ∷ rest)

unfoldable pub to_autocomplete_items : List NameHit → List AutocompleteItem
unfolding items_from
to_autocomplete_items hits = items_from [] hits

pub record AutocompleteQuery : Type 0 where
  pub query : Text
  pub kind : Text
  pub fields : List Text

unfoldable pub build_autocomplete_query : Text → AutocompleteQuery
build_autocomplete_query prefix = record {
  query = prefix;
  kind = str "bool_prefix";
  fields = str "name.suggest" ∷ str "name.suggest._2gram" ∷ str "name.suggest._3gram" ∷ [];
}

pub record AutocompleteRequest : Type 0 where
  pub size : ℕ
  pub source : List Text
  pub query : AutocompleteQuery

unfoldable pub build_autocomplete_request : Text → ℕ → AutocompleteRequest
unfolding build_autocomplete_query
build_autocomplete_request prefix limit = record {
  size = limit;
  source = str "name" ∷ [];
  query = build_autocomplete_query prefix;
}

abbrev pub completed : Result (List NameHit) → Result (List AutocompleteItem)
completed (thrown e) = thrown e
completed (ok hits) = ok (to_autocomplete_items hits)

unfoldable pub complete :
    (AutocompleteRequest → Result (List NameHit)) → Text → ℕ → Result (List AutocompleteItem)
unfolding build_autocomplete_request to_autocomplete_items
complete client prefix limit = completed (client (build_autocomplete_request prefix limit))
