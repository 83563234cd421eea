-- ===== src/Config/Strict.antt =====
-- What a configuration that comes up guarantees.
use advanced_search_api.Base.{
  ◌≤◌, Text, Option, none, some, Bool, true, false, not, ◌||◌, ◌≡◌, ◌≢◌, refl, List, [], ◌∷◌, leb,
  ltb, every, length, is_some, arith, All, subst, every→All, leb→le,
}
use advanced_search_api.Base.Trim.{trim, split}
use advanced_search_api.Config.Environment.{Supplied, Env, NodeEnv, production, with_defaults}
use advanced_search_api.Config.Environment.Checks.{
  parse_keys, trimmed_items, keep_filled, is_refined, validate_env, itself, refinements,
  field_checks, start_checks, min_api_key_length, fields_are_valid, if_valid, is_production,
}
use advanced_search_api.Config.{parse_list, non_empty_items, build_config}

keep_filled_same : (t : Text) (ts us : List Text) → ts ≡ us → keep_filled t ts ≡ keep_filled t us
keep_filled_same t ts us e = rw e

non_empty_items-trimmed_items : (ts : List Text) → non_empty_items ts ≡ trimmed_items ts
unfolding non_empty_items trimmed_items
non_empty_items-trimmed_items [] = refl
non_empty_items-trimmed_items (t ∷ ts) =
    keep_filled_same (trim t) (non_empty_items ts) (trimmed_items ts)
      (non_empty_items-trimmed_items ts)

-- The keys that the validation checks are the keys that the guard gets.
pub parse_list-parse_keys : (raw : Option Text) → parse_list raw ≡ parse_keys raw
unfolding parse_list parse_keys split trimmed_items trim
parse_list-parse_keys none = refl
parse_list-parse_keys (some []) = refl
parse_list-parse_keys (some (c ∷ s)) = non_empty_items-trimmed_items (split b',' (c ∷ s))

refined_of : (b : Bool) (e : Env) (env : Env) → if_valid b e ≡ some env → (b ≡ true) × (e ≡ env)
refined_of true e env h = (refl, cc)
refined_of false e env h = cc

validated :
    (is_url : Text → Bool) (s : Supplied) (env : Env)
    → validate_env is_url s ≡ some env
    → (fields_are_valid is_url env ≡ true) × (is_refined env ≡ true)
unfolding validate_env
validated is_url s env h =
    let (b, e) = refined_of _ (with_defaults s) env h in
    let (_, (_, (fields, (refined, _)))) = every→All itself (start_checks is_url s) b in
    subst (λ v. (fields_are_valid is_url v ≡ true) × (is_refined v ≡ true)) e (fields, refined)

positive_length : (ts : List Text) → ltb 0 (length ts) ≡ true → ts ≢ []
positive_length [] h e = cc
positive_length (t ∷ ts) h e = cc

implied : (a b : Bool) → a ≡ true → (not a || b) ≡ true → b ≡ true
implied true b h k = k
implied false b h k = cc

token_required :
    (n : NodeEnv) (on : Bool) (b : Bool)
    → n ≡ production
    → on ≡ true
    → (not (is_production n) || not on || b) ≡ true
    → b ≡ true
token_required n on b live e h = ground arith

strong_keys :
    (env : Env)
    → is_refined env ≡ true
    → env.api_auth_enabled ≡ true
    → (parse_keys env.api_keys ≢ [])
      × (every (λ k. leb min_api_key_length (length k)) (parse_keys env.api_keys) ≡ true)
unfolding is_refined
strong_keys env h on =
    let (_, (_, (present, (long, _)))) = every→All itself (refinements env) h in
    (
      positive_length (parse_keys env.api_keys) (implied env.api_auth_enabled _ on present),
      implied env.api_auth_enabled _ on long,
    )

long_enough :
    (ks : List Text)
    → every (λ k. leb min_api_key_length (length k)) ks ≡ true
    → All (λ k. 16 ≤ length k) ks
unfolding every
long_enough [] h = tt
long_enough (k ∷ ks) h = (ground arith, long_enough ks (ground arith))

-- A configuration that comes up, whatever is set: the default page fits the limit, windows and pages are
-- not empty; with authentication on there is a key, and each has 16 characters at least; and in
-- production the metrics, where they are on, have a token.
pub build_config_strict :
    (is_url : Text → Bool) (decode : Text → Option Text) (s : Supplied) (env : Env)
    → validate_env is_url s ≡ some env
    → (let c = build_config decode env in
        (c.search.default_page_size ≤ c.search.max_page_size)
        × (1 ≤ c.search.default_page_size)
        × (1 ≤ c.rate_limit.window_seconds)
        × (c.api_auth.enabled ≡ true
            → (c.api_auth.keys ≢ []) × All (λ k. 16 ≤ length k) c.api_auth.keys)
        × (c.app.node_env ≡ production
            → c.observability.metrics_enabled ≡ true
            → is_some c.observability.metrics_token ≡ true))
unfolding build_config is_refined fields_are_valid
build_config_strict is_url decode s env h =
    let (valid, refined) = validated is_url s env h in
    let (_, (ordered, (_, (_, (token, _))))) = every→All itself (refinements env) refined in
    let v = every→All itself (field_checks is_url env) valid in
    (
      leb→le _ _ ordered,
      leb→le _ _ v.1.1.1.1.1.1.1.1.0,
      leb→le _ _ v.1.1.1.1.1.1.1.1.1.1.1.1.1.1.0,
      (λ on.
          let (some_key, long) = strong_keys env refined on in
          rw (parse_list-parse_keys env.api_keys)
            (some_key, long_enough (parse_keys env.api_keys) long)),
      (λ live on. token_required env.node_env env.metrics_enabled _ live on token),
    )
