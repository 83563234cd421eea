-- ===== src/Auth.antt =====
-- src/presentation/auth: the API key check and the guard in front of every client endpoint.
pub mod Admission
use advanced_search_api.Base.{
  ℕ, Text, str, Option, none, some, Bool, true, false, not, List, [], ◌∷◌, ◌++◌, map, if◌then◌else◌,
  is_some,
}
use advanced_search_api.Shared.Paths.{matches_path, operator_paths, slice_to}

-- node:crypto, as the code calls it.
pub record Crypto : Type 0 where
  pub sha256 : Text → List ℕ
  pub timing_safe_equal : List ℕ → List ℕ → Bool
  pub hex : List ℕ → Text

-- `KeyIdentifier`: a presented key to a client id.
abbrev pub KeyIdentifier : Type 0
KeyIdentifier = Option Text → Option Text

-- A header as Express gives it: absent, one value, or several.
pub data Header : Type 0 where
  absent : Header
  single : Text → Header
  several : List Text → Header

unfoldable pub first_value : List Text → Option Text
first_value [] = none
first_value (v ∷ _) = some v

unfoldable pub presented_key : Header → Option Text
unfolding first_value
presented_key absent = none
presented_key (single v) = some v
presented_key (several vs) = first_value vs

module _ (crypto : Crypto) where
  open crypto use {sha256, timing_safe_equal, hex}

  unfoldable pub to_client_id : List ℕ → Text
  unfolding slice_to
  to_client_id digest = str "key:" ++ slice_to 16 (hex digest)

  -- The `reduce` over the known digests, which never stops early.
  unfoldable pub match_known : List (List ℕ) → List ℕ → Bool → Bool
  match_known [] candidate found = found
  match_known (digest ∷ known) candidate found =
      match_known known candidate (if timing_safe_equal digest candidate then true else found)

  unfoldable pub identify_present : List (List ℕ) → Text → Option Text
  unfolding match_known to_client_id
  identify_present known [] = none
  identify_present known presented =
      let candidate = sha256 presented in
      if match_known known candidate false then some (to_client_id candidate) else none

  unfoldable pub create_key_identifier : List Text → KeyIdentifier
  unfolding identify_present
  create_key_identifier keys none = none
  create_key_identifier keys (some presented) = identify_present (map sha256 keys) presented

-- `ApiAuthConfig` of src/config/app-config.ts.
pub record ApiAuthConfig : Type 0 where
  pub enabled : Bool
  pub keys : List Text

-- `canActivate`: `false` stands for the `UnauthorizedException` that it throws.
unfoldable pub can_activate : Crypto → ApiAuthConfig → Text → Header → Bool
unfolding create_key_identifier matches_path presented_key
can_activate crypto config url header =
    if not config.enabled
    then true
    else if matches_path url operator_paths
    then true
    else is_some (create_key_identifier crypto config.keys (presented_key header))
