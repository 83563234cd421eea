-- ===== src/Config/Environment/Checks.antt =====
-- src/config/env.schema.ts: the constraints and the refinements of the environment, and `validateEnv`.
use advanced_search_api.Base.{
  ◌or◌, ℕ, suc, Text, Option, none, some, Bool, true, false, not, ◌&&◌, ◌||◌, List, [], ◌∷◌, leb,
  ltb, every, length, is_some,
}
use advanced_search_api.Base.Trim.{trim, split}
use advanced_search_api.Domain.{Number, not_finite, negative, fraction}
use advanced_search_api.Config.Environment.{
  Supplied, Env, NodeEnv, development, test, production, with_defaults,
}

abbrev is_filled : Text → Bool
is_filled [] = false
is_filled (_ ∷ _) = true

abbrev if_set : (Text → Bool) → Option Text → Bool
if_set p none = true
if_set p (some t) = p t

abbrev non_negative : Number → Bool
non_negative not_finite = false
non_negative negative = false
non_negative (fraction _ _) = true

-- `gt(0).lt(1)`, and `min(0).max(1)`.
abbrev between_0_and_1 : Number → Bool
between_0_and_1 not_finite = false
between_0_and_1 negative = false
between_0_and_1 (fraction n d) = ltb 0 n && ltb n (suc d)

abbrev from_0_to_1 : Number → Bool
from_0_to_1 not_finite = false
from_0_to_1 negative = false
from_0_to_1 (fraction n d) = leb n (suc d)

abbrev pub itself : Bool → Bool
itself b = b

-- The constraints on single variables, all of them; `is_url` is zod's check of a URL.
abbrev pub field_checks : (Text → Bool) → Env → List Bool
field_checks is_url env =
    (leb 1 env.port)
    ∷ (is_url env.elasticsearch_node)
    ∷ (if_set is_filled env.elasticsearch_api_key)
    ∷ (if_set is_filled env.elasticsearch_username)
    ∷ (if_set is_filled env.elasticsearch_password)
    ∷ (is_filled env.elasticsearch_index)
    ∷ (leb 1 env.elasticsearch_request_timeout_ms)
    ∷ (is_url env.redis_url)
    ∷ (leb 1 env.search_default_page_size)
    ∷ (leb 1 env.search_max_page_size)
    ∷ (leb 1 env.search_max_result_window)
    ∷ (non_negative env.relevance_popularity_factor)
    ∷ (is_filled env.relevance_recency_scale)
    ∷ (between_0_and_1 env.relevance_recency_decay)
    ∷ (leb 1 env.rate_limit_window_seconds)
    ∷ (leb 1 env.rate_limit_search)
    ∷ (leb 1 env.rate_limit_autocomplete)
    ∷ (leb 1 env.rate_limit_suggest)
    ∷ (leb 1 env.rate_limit_default)
    ∷ (if_set is_filled env.metrics_token)
    ∷ (if_set is_url env.otel_exporter_otlp_endpoint)
    ∷ (is_filled env.otel_service_name)
    ∷ (from_0_to_1 env.otel_traces_sampler_ratio)
    ∷ (leb 1 env.otel_metric_export_interval_ms)
    ∷ (if_set is_url env.loki_url)
    ∷ (if_set is_filled env.loki_username)
    ∷ (if_set is_filled env.loki_password)
    ∷ []

unfoldable pub fields_are_valid : (Text → Bool) → Env → Bool
unfolding every
fields_are_valid is_url env = every itself (field_checks is_url env)

abbrev pub min_api_key_length : ℕ
min_api_key_length = 16

abbrev pub keep_filled : Text → List Text → List Text
keep_filled [] ts = ts
keep_filled (c ∷ s) ts = (c ∷ s) ∷ ts

-- `.map(trim).filter(length > 0)`.
unfoldable pub trimmed_items : List Text → List Text
unfolding trim
trimmed_items [] = []
trimmed_items (t ∷ ts) = keep_filled (trim t) (trimmed_items ts)

unfoldable pub parse_keys : Option Text → List Text
unfolding trimmed_items split
parse_keys raw = trimmed_items (split b',' (raw or []))

abbrev pub is_production : NodeEnv → Bool
is_production production = true
is_production development = false
is_production test = false

abbrev is_true_text : Option Text → Bool
is_true_text none = false
is_true_text (some []) = false
is_true_text (some (_ ∷ _)) = true

abbrev same_bool : Bool → Bool → Bool
same_bool true b = b
same_bool false b = not b

-- The refinements, in their order.
abbrev pub refinements : Env → List Bool
refinements env =
    (not (is_true_text env.elasticsearch_username) || is_true_text env.elasticsearch_password)
    ∷ leb env.search_default_page_size env.search_max_page_size
    ∷ (not env.api_auth_enabled || ltb 0 (length (parse_keys env.api_keys)))
    ∷ (not env.api_auth_enabled
        || every (λ k. leb min_api_key_length (length k)) (parse_keys env.api_keys))
    ∷ (not (is_production env.node_env) || not env.metrics_enabled || is_some env.metrics_token)
    ∷ (not env.otel_metrics_export_enabled || is_some env.otel_exporter_otlp_endpoint)
    ∷ same_bool (is_some env.loki_username) (is_some env.loki_password)
    ∷ (is_some env.loki_url || not (is_some env.loki_username))
    ∷ []

unfoldable pub is_refined : Env → Bool
unfolding parse_keys every
is_refined env = every itself (refinements env)

abbrev pub start_checks : (Text → Bool) → Supplied → List Bool
start_checks is_url s =
    is_some s.elasticsearch_node
    ∷ is_some s.redis_url
    ∷ fields_are_valid is_url (with_defaults s)
    ∷ is_refined (with_defaults s)
    ∷ []

abbrev pub if_valid : Bool → Env → Option Env
if_valid true env = some env
if_valid false env = none

-- `none` stands for the error that stops the start.
unfoldable pub validate_env : (Text → Bool) → Supplied → Option Env
unfolding every fields_are_valid is_refined with_defaults
validate_env is_url s = if_valid (every itself (start_checks is_url s)) (with_defaults s)
