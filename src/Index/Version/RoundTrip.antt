-- ===== src/Index/Version/RoundTrip.antt =====
-- Reading the version back from a physical name.
use advanced_search_api.Base.{
  ℕ, ◌≤◌, ◌<◌, Text, str, Option, none, some, true, ◌≡◌, ◌≢◌, refl, sym, ◌∙◌, ap, inl, inr, arith,
  length, length-append, subst, [], ◌∷◌, ◌++◌, every, every→All, All→every, text_eq_iff,
  text_eq_refl, Bool-cases, Option-cases,
}
use advanced_search_api.Base.Decimal.{
  is_digit, IsDigits, to_decimal, of_decimal, of_decimal-to_decimal, to_decimal-IsDigits,
}
use advanced_search_api.Index.Version.{
  physical_index_name, version_suffix, extend, split_version, is_plain, groups_of, version_of,
  parse_physical_index_version,
}

no_suffix : (c : ℕ) (s : Text) → c ≢ b'_' → version_suffix (c ∷ s) ≡ none
unfolding version_suffix
no_suffix c [] n = refl
no_suffix c (d ∷ []) n = refl
no_suffix c (d ∷ e ∷ s) n = ground arith

split_version_digits : (d : Text) → IsDigits d → split_version d ≡ none
unfolding split_version
split_version_digits [] h = refl
split_version_digits (c ∷ s) (hc, h) =
    rw (split_version_digits s h) (rw (no_suffix c s (ground arith), extend))

suffix_of_digits : (d : Text) → d ≢ [] → IsDigits d → version_suffix (b'_' ∷ b'v' ∷ d) ≡ some d
unfolding version_suffix
suffix_of_digits [] n h = absurd (n refl)
suffix_of_digits (e ∷ s) n h = ground (arith, All→every is_digit (e ∷ s) h)

split_version_name :
    (a d : Text) → d ≢ [] → IsDigits d → split_version (a ++ b'_' ∷ b'v' ∷ d) ≡ some (a, d)
unfolding split_version
split_version_name [] d n h =
    rw (split_version_digits d h)
      (rw (no_suffix b'v' d (omega arith), extend) (rw (suffix_of_digits d n h, extend)))
split_version_name (c ∷ a) d n h = rw (split_version_name a d n h)

to_decimal-ne-nil : (n : ℕ) → 0 < n → to_decimal n ≢ []
unfolding of_decimal
to_decimal-ne-nil n p e = let back = sym (of_decimal-to_decimal n) ∙ ap of_decimal e in omega arith

-- The alias of an index: not empty, and on one line.
abbrev pub IsAlias : Text → Type 0
IsAlias alias = (alias ≢ []) × (every is_plain alias ≡ true)

groups_of_alias : (alias d : Text) → IsAlias alias → groups_of (some (alias, d)) ≡ some (alias, d)
groups_of_alias [] d h = absurd (h.0 refl)
groups_of_alias (c ∷ a) d h = rw h.1

parse_digits :
    (alias d : Text)
    → IsAlias alias
    → d ≢ []
    → IsDigits d
    → 1 ≤ of_decimal d
    → parse_physical_index_version alias (alias ++ (str "_v" ++ d)) ≡ some (of_decimal d)
unfolding parse_physical_index_version
parse_digits alias d a n h p =
    rw (split_version_name alias d n h)
      (rw (groups_of_alias alias d a) (ground (arith, text_eq_refl alias)))

-- The version of a name that the code itself has made is read back.
pub parse-physical_index_name :
    (alias : Text) (version : ℕ)
    → IsAlias alias
    → 1 ≤ version
    → parse_physical_index_version alias (physical_index_name alias version) ≡ some version
unfolding physical_index_name
parse-physical_index_name alias version a p =
    parse_digits alias (to_decimal version) a (to_decimal-ne-nil version p)
      (to_decimal-IsDigits version) (rw (of_decimal-to_decimal version) p)
    ∙ ap some (of_decimal-to_decimal version)

-- The pattern takes a version with a zero in front for the version without it, so the name that the
-- code makes from what it has read need not be the name that it has read.
pub parse_leading_zero :
    (alias : Text) (version : ℕ)
    → IsAlias alias
    → 1 ≤ version
    → (parse_physical_index_version alias (alias ++ (str "_v0" ++ to_decimal version))
        ≡ some version)
      × (alias ++ (str "_v0" ++ to_decimal version) ≢ physical_index_name alias version)
unfolding physical_index_name of_decimal
parse_leading_zero alias version a p =
    let value = of_decimal-to_decimal version in
    (
      parse_digits alias (b'0' ∷ to_decimal version) a (λ e. cc) (refl, to_decimal-IsDigits version)
            (rw value p)
          ∙ ap some value,
      λ e. absurd (
          omega (
            arith,
            ap length e,
            length-append alias (str "_v0" ++ to_decimal version),
            length-append alias (str "_v" ++ to_decimal version),
          )),
    )

version_suffix_sound :
    (s d : Text) → version_suffix s ≡ some d → (s ≡ b'_' ∷ b'v' ∷ d) × IsDigits d × (d ≢ [])
unfolding version_suffix
version_suffix_sound [] d h = cc
version_suffix_sound (c ∷ []) d h = cc
version_suffix_sound (c ∷ x ∷ []) d h = cc
version_suffix_sound (c ∷ x ∷ e ∷ s) d h = elim (Bool-cases (every is_digit (e ∷ s))) [
  | inl digits ↦
      let same : (e ∷ s) ≡ d = ground arith in
      (ground arith, subst IsDigits same (every→All is_digit (e ∷ s) digits), ground arith)
  | inr other ↦ let clash : ⊥ = ground arith in absurd clash
]

split_version_sound :
    (s a d : Text)
    → split_version s ≡ some (a, d)
    → (s ≡ a ++ b'_' ∷ b'v' ∷ d) × IsDigits d × (d ≢ [])
unfolding split_version
split_version_sound [] a d h = cc
split_version_sound (c ∷ s) a d h = elim (Option-cases (split_version s)) [
  | inr ((a', d'), e) ↦
      let (whole, digits, some_digit) = split_version_sound s a' d' e in
      let same : ◌≡◌ {A = Option (Text × Text)} (some (c ∷ a', d')) (some (a, d)) = rw e at h in
      (ground arith, subst IsDigits (let e : d' ≡ d = ground arith in e) digits, ground arith)
  | inl e ↦ elim (Option-cases (version_suffix (c ∷ s))) [
    | inl f ↦ let clash : ⊥ = ground arith in absurd clash
    | inr (d', f) ↦
        let (whole, digits, some_digit) = version_suffix_sound (c ∷ s) d' f in
        let same : ◌≡◌ {A = Option (Text × Text)} (some ([], d')) (some (a, d)) =
          rw (e, f, extend) at h in
        (ground arith, subst IsDigits (let e : d' ≡ d = ground arith in e) digits, ground arith)
  ]
]

groups_sound : (o : Option (Text × Text)) (a d : Text) → groups_of o ≡ some (a, d) → o ≡ some (a, d)
groups_sound none a d h = cc
groups_sound (some ([], e)) a d h = cc
groups_sound (some (c ∷ b, e)) a d h = ground arith

-- A version is read only from a name that is the alias, "_v" and digits with a value of at least 1,
-- and it is that value; a name of any other form is refused.
pub parse_physical_index_version_sound :
    (alias name : Text) (version : ℕ)
    → parse_physical_index_version alias name ≡ some version
    → (d : Text) × (name ≡ alias ++ (str "_v" ++ d))
      × IsDigits d
      × (of_decimal d ≡ version)
      × (1 ≤ version)
unfolding parse_physical_index_version
parse_physical_index_version_sound alias name version h =
    elim (Option-cases (groups_of (split_version name))) [
      | inl e ↦ absurd (go (rw e at h))
      | inr ((a, d), e) ↦
          let (whole, digits, _) =
            split_version_sound name a d (groups_sound (split_version name) a d e) in
          let read : version_of alias (some (a, d)) ≡ some version = rw e at h in
          (d, ground (arith, text_eq_iff a alias), digits, ground arith, ground arith)
    ]
  where
    go : none ≡ some version → ⊥
    go e = cc
