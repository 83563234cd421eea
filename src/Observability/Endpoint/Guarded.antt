-- ===== src/Observability/Endpoint/Guarded.antt =====
-- Who can read the metrics.
use advanced_search_api.Base.{
  Text, str, Option, none, some, Bool, true, false, Bool-cases, inl, inr, ap, ◌≡◌, ◌≢◌, refl, sym,
  ◌∙◌, ◌↔◌, List, ◌++◌, text_eq_iff, is_some,
}
use advanced_search_api.Base.Dict.{Dict}
use advanced_search_api.Config.{AppConfiguration, build_config}
use advanced_search_api.Config.Environment.{Supplied, Env, production}
use advanced_search_api.Config.Environment.Checks.{validate_env}
use advanced_search_api.Config.Strict.{build_config_strict}
use advanced_search_api.Observability.Metrics.{
  MetricsCall, Adapter, noop, Sample, build_metrics_adapter,
}
use advanced_search_api.Observability.Metrics.Recorded.{record_all, noop-silent}
use advanced_search_api.Observability.Endpoint.{assert_authorized, Scraped, unauthorized, metrics}

-- Access is given exactly where no token is configured, or the header is that token as a bearer.
pub assert_authorized_iff :
    (token authorization : Option Text)
    → (assert_authorized token authorization ≡ true)
      ↔ ((t : Text) → token ≡ some t → authorization ≡ some (str "Bearer " ++ t))
unfolding assert_authorized
assert_authorized_iff none authorization = ((λ _ t e. absurd (cc)), (λ _. refl))
assert_authorized_iff (some token) none =
    ((λ h. absurd (cc)), (λ h. let e = h token refl in absurd (cc)))
assert_authorized_iff (some token) (some sent) = (
  (λ h t e. let same = (text_eq_iff sent (str "Bearer " ++ token)).0 h in cc),
  (λ h. let e = h token refl in (text_eq_iff sent (str "Bearer " ++ token)).1 (cc)),
)

module _ (exposition : List Sample → Text) (registry_type : Text) (headers : Dict Text)
    (config : AppConfiguration) (authorization : Option Text) where
  -- The answer to a scrape after some calls of the metrics port.
  abbrev pub scrape_after : List MetricsCall → Scraped
  scrape_after cs =
      metrics exposition registry_type config
        (record_all cs (build_metrics_adapter config.observability)) authorization headers

  refused_by :
      (adapter : Adapter)
      → assert_authorized config.observability.metrics_token authorization ≡ false
      → metrics exposition registry_type config adapter authorization headers ≡ unauthorized
  unfolding metrics
  refused_by adapter h = rw h refl

  off_after :
      (cs : List MetricsCall)
      → config.observability.metrics_enabled ≡ false
      → record_all cs (build_metrics_adapter config.observability) ≡ noop
  unfolding build_metrics_adapter
  off_after cs off = rw off (noop-silent cs)

not_the_bearer :
    (token authorization : Option Text)
    → is_some token ≡ true
    → ((t : Text) → token ≡ some t → authorization ≢ some (str "Bearer " ++ t))
    → assert_authorized token authorization ≡ false
not_the_bearer none authorization there stranger = absurd (cc)
not_the_bearer (some t) authorization there stranger =
    elim (Bool-cases (assert_authorized (some t) authorization)) [
      | inl h ↦ absurd (stranger t refl ((assert_authorized_iff (some t) authorization).0 h t refl))
      | inr h ↦ h
    ]

-- In production, with any environment that comes up, a scrape without the configured bearer token is
-- answered alike whatever has been measured, whether metrics are on or off.
pub metrics_stranger_learns_nothing :
    (is_url : Text → Bool) (decode : Text → Option Text) (s : Supplied) (env : Env)
    (exposition : List Sample → Text) (registry_type : Text) (headers : Dict Text)
    (authorization : Option Text) (cs ds : List MetricsCall)
    → validate_env is_url s ≡ some env
    → env.node_env ≡ production
    → ((t : Text) → env.metrics_token ≡ some t → authorization ≢ some (str "Bearer " ++ t))
    → scrape_after exposition registry_type headers (build_config decode env) authorization cs
      ≡ scrape_after exposition registry_type headers (build_config decode env) authorization ds
unfolding build_config
metrics_stranger_learns_nothing is_url decode s env exposition registry_type headers authorization
      cs ds valid live stranger =
    let config = build_config decode env in
    elim (Bool-cases env.metrics_enabled) [
      | inl on ↦
          let token = (build_config_strict is_url decode s env valid).4 live on in
          let no_access = not_the_bearer env.metrics_token authorization token stranger in
          refused_by exposition registry_type headers config authorization _ no_access
          ∙ sym (refused_by exposition registry_type headers config authorization _ no_access)
      | inr off ↦
          ap (λ a. metrics exposition registry_type config a authorization headers)
            (off_after exposition registry_type headers config authorization cs off
              ∙ sym (off_after exposition registry_type headers config authorization ds off))
    ]
