-- ===== src/Auth/Admission.antt =====
-- Who the API key check lets in.
use advanced_search_api.Base.{
  ℕ, Text, Option, none, some, true, false, ◌≡◌, ◌≢◌, refl, ap, ◌⊎◌, inl, inr, ◌↔◌, List, [], ◌∷◌,
  map, arith, is_some, Bool-cases,
}
use advanced_search_api.Shared.Paths.{matches_path, operator_paths, path_without_query}
use advanced_search_api.Shared.Paths.Matching.{IsBelowAny, matches_path_iff}
use advanced_search_api.Auth.{
  Crypto, Header, presented_key, match_known, create_key_identifier, ApiAuthConfig, can_activate,
}

-- One of the configured keys.
abbrev pub OneOf : Text → List Text → Type 0
OneOf key [] = ⊥
OneOf key (k ∷ ks) = (k ≡ key) ⊎ OneOf key ks

-- What the code relies on in node:crypto: `timingSafeEqual` compares contents, and the digest of a
-- presented key meets no other configured key's.
pub record Sound (crypto : Crypto) : Type 0 where
  pub compares : (a b : List ℕ) → (crypto.timing_safe_equal a b ≡ true) ↔ (a ≡ b)

abbrev pub NoCollision : Crypto → Text → List Text → Type 0
NoCollision crypto key [] = Unit {0}
NoCollision crypto key (k ∷ ks) =
    (crypto.sha256 k ≡ crypto.sha256 key → k ≡ key) × NoCollision crypto key ks

module _ (crypto : Crypto) (sound : Sound crypto) where
  match_known_found : (known : List (List ℕ)) (c : List ℕ) → match_known crypto known c true ≡ true
  unfolding match_known
  match_known_found [] c = refl
  match_known_found (d ∷ known) c = ground (arith, match_known_found known c)

  match_known_sound :
      (key : Text) (ks : List Text)
      → NoCollision crypto key ks
      → match_known crypto (map crypto.sha256 ks) (crypto.sha256 key) false ≡ true
      → OneOf key ks
  unfolding match_known
  match_known_sound key [] n h = cc
  match_known_sound key (k ∷ ks) (only, n) h =
      elim (Bool-cases (crypto.timing_safe_equal (crypto.sha256 k) (crypto.sha256 key))) [
        | inl e ↦ inl (only ((sound.compares _ _).0 e))
        | inr e ↦ inr (match_known_sound key ks n (rw (e, match_known) at h))
      ]

  match_known_complete :
      (key : Text) (ks : List Text)
      → OneOf key ks
      → match_known crypto (map crypto.sha256 ks) (crypto.sha256 key) false ≡ true
  unfolding match_known
  match_known_complete key [] h = absurd h
  match_known_complete key (k ∷ ks) (inl e) =
      rw ((sound.compares _ _).1 (ap crypto.sha256 e), match_known)
        (match_known_found (map crypto.sha256 ks) (crypto.sha256 key))
  match_known_complete key (k ∷ ks) (inr h) =
      elim (Bool-cases (crypto.timing_safe_equal (crypto.sha256 k) (crypto.sha256 key))) [
        | inl e ↦ rw (e, match_known) (match_known_found (map crypto.sha256 ks) (crypto.sha256 key))
        | inr e ↦ rw (e, match_known) (match_known_complete key ks h)
      ]

  pub identified_iff :
      (keys : List Text) (key : Text)
      → NoCollision crypto key keys
      → (is_some (create_key_identifier crypto keys (some key)) ≡ true)
        ↔ ((key ≢ []) × OneOf key keys)
  unfolding create_key_identifier
  identified_iff keys [] n = (λ h. cc, λ h. absurd (h.0 refl))
  identified_iff keys (c ∷ s) n = (
    λ h. (λ e. cc, match_known_sound (c ∷ s) keys n (ground arith)),
    λ h. ground (arith, match_known_complete (c ∷ s) keys h.1),
  )

  -- The header presents a key that is one of the configured ones and is not empty.
  abbrev pub PresentsOneOf : Header → List Text → Type 0
  PresentsOneOf header keys =
      (key : Text) × (presented_key header ≡ some key) × (key ≢ []) × OneOf key keys

  unidentified : (keys : List Text) → is_some (create_key_identifier crypto keys none) ≡ false
  unfolding create_key_identifier
  unidentified keys = refl

  presents_iff :
      (header : Header) (keys : List Text) (presented : Option Text)
      → presented_key header ≡ presented
      → ((key : Text) → presented ≡ some key → NoCollision crypto key keys)
      → (is_some (create_key_identifier crypto keys presented) ≡ true) ↔ PresentsOneOf header keys
  presents_iff header keys none e apart =
      ((λ h. let no = unidentified keys in absurd (cc)), (λ (key, is, filled, one). absurd (cc)))
  presents_iff header keys (some k) e apart =
      let (found, find) = identified_iff keys k (apart k refl) in
      (
        (λ h. let (filled, one) = found h in (k, e, filled, one)),
        (λ (key, is, filled, one). let same : k ≡ key = cc in find (rw same (filled, one))),
      )

  -- The guard lets a request through exactly if authentication is off, or the path is an operator
  -- path or lies below one, or the request presents a key, the first one of its header, that is
  -- not empty and is one of those configured; a request without a key is let through by the first two
  -- alone. The digest of a presented key is taken not to meet that of another configured key.
  pub can_activate_iff :
      (config : ApiAuthConfig) (url : Text) (header : Header)
      → ((key : Text) → presented_key header ≡ some key → NoCollision crypto key config.keys)
      → (can_activate crypto config url header ≡ true) ↔ (
          (config.enabled ≡ false)
          ⊎ IsBelowAny (path_without_query url) operator_paths
          ⊎ PresentsOneOf header config.keys)
  unfolding can_activate
  can_activate_iff config url header apart =
      let (found, find) = presents_iff header config.keys (presented_key header) refl apart in
      let (below, match) = matches_path_iff url operator_paths in
      (
        λ h. elim (Bool-cases config.enabled) [
          | inr off ↦ inl off
          | inl on ↦ elim (Bool-cases (matches_path url operator_paths)) [
            | inl m ↦ inr (inl (below m))
            | inr other ↦ inr (inr (found (ground arith)))
          ]
        ],
        elim [
          | inl off ↦ ground arith
          | inr (inl m) ↦ let m' = match m in ground arith
          | inr (inr k) ↦ let k' = find k in ground arith
        ],
      )
