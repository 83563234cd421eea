-- ===== src/Index/Version.antt =====
-- src/infrastructure/elasticsearch/index/physical-index.version.ts: the names of physical indices.
-- A number is exact here, where JavaScript rounds one above 2^53.
pub mod RoundTrip
use advanced_search_api.Base.{
  ℕ, suc, ◌+◌, Text, str, Option, none, some, Bool, true, false, not, ◌&&◌, ◌||◌, List, [], ◌∷◌,
  ◌++◌, ◌==◌, leb, if◌then◌else◌, text_eq, every,
}
use advanced_search_api.Base.Decimal.{is_digit, to_decimal, of_decimal}

unfoldable pub physical_index_name : Text → ℕ → Text
physical_index_name alias version = alias ++ (str "_v" ++ to_decimal version)

-- The end `_v(?<version>\d+)$` of the pattern, at the head of a text.
unfoldable pub version_suffix : Text → Option Text
unfolding every
version_suffix [] = none
version_suffix (c ∷ []) = none
version_suffix (c ∷ d ∷ []) = none
version_suffix (c ∷ d ∷ e ∷ s) =
    if (c == b'_') && (d == b'v') && every is_digit (e ∷ s) then some (e ∷ s) else none

abbrev extend : ℕ → Text → Option (Text × Text) → Option (Text × Text)
extend c s (some (a, d)) = some (c ∷ a, d)
extend c s none = elim (version_suffix (c ∷ s)) [ none ↦ none | some d ↦ some ([], d) ]

-- The longest prefix that such an end follows, with the digits.
unfoldable pub split_version : Text → Option (Text × Text)
unfolding version_suffix
split_version [] = none
split_version (c ∷ s) = extend c s (split_version s)

-- `.` matches all but the line terminators.
abbrev pub is_plain : ℕ → Bool
is_plain c = not (c == 10 || c == 13 || c == 8232 || c == 8233)

-- The groups of `PHYSICAL_INDEX_PATTERN`, whose `.+` is not empty.
abbrev groups_of : Option (Text × Text) → Option (Text × Text)
groups_of none = none
groups_of (some ([], d)) = none
groups_of (some (c ∷ a, d)) = if every is_plain (c ∷ a) then some (c ∷ a, d) else none

-- `none` stands for the `IndexMigrationError`.
abbrev version_of : Text → Option (Text × Text) → Option ℕ
version_of alias none = none
version_of alias (some (a, d)) =
    if text_eq a alias && leb 1 (of_decimal d) then some (of_decimal d) else none

unfoldable pub parse_physical_index_version : Text → Text → Option ℕ
unfolding split_version every
parse_physical_index_version alias physical_index =
    version_of alias (groups_of (split_version physical_index))

unfoldable pub next_physical_version : Option ℕ → ℕ
next_physical_version none = 1
next_physical_version (some current) = current + 1
