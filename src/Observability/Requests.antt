-- ===== src/Observability/Requests.antt =====
-- What is kept of a request: src/presentation/common/metrics.middleware.ts and logging.interceptor.ts,
-- and the traces that src/infrastructure/observability/ignored-paths.sampler.ts drops.
pub mod Quiet
use advanced_search_api.Base.{
  ℕ, suc, Text, str, Option, none, some, Bool, true, false, ◌&&◌, List, [], ◌∷◌, ◌++◌,
  if◌then◌else◌,
}
use advanced_search_api.Base.Dict.{Dict, get}
use advanced_search_api.Base.Decimal.{to_decimal}
use advanced_search_api.Shared.{LogLine, info}
use advanced_search_api.Shared.Paths.{matches_path, operator_paths, path_without_query}
use advanced_search_api.Domain.{Number, fraction}
use advanced_search_api.Observability.Metrics.{MetricsCall, observe_request}

-- A property that Express types loosely: absent, a text, or something else.
pub data Loose : Type 0 where
  undefined other : Loose
  a_text : Text → Loose

-- A request once it is answered: `route_path` is the pattern that it matched.
pub record Answered : Type 0 where
  pub method : Text
  pub url : Text
  pub route_path : Loose
  pub status_code : ℕ

unfoldable pub route_label : Loose → Text
route_label undefined = str "unmatched"
route_label other = str "unmatched"
route_label (a_text []) = str "unmatched"
route_label (a_text (c ∷ s)) = c ∷ s

-- What the middleware records when the response finishes, after so many nanoseconds.
unfoldable pub metrics_middleware : Answered → ℕ → MetricsCall
unfolding route_label
metrics_middleware request elapsed_ns =
    observe_request request.method (route_label request.route_path) request.status_code
      (fraction elapsed_ns 999999)

-- The interceptor's `tap`, which fires on success.
unfoldable pub intercept : Answered → ℕ → List LogLine
unfolding matches_path path_without_query to_decimal
intercept request elapsed_ms =
    if matches_path request.url operator_paths
    then []
    else info (
        request.method
        ++ (str " "
            ++ (path_without_query request.url
                ++ (str " "
                    ++ (to_decimal request.status_code
                        ++ (str " " ++ (to_decimal elapsed_ms ++ str "ms")))))))
      ∷ []

pub data SpanKind : Type 0 where
  internal server client producer consumer : SpanKind

pub data Decision : Type 0 where
  not_record record_only record_and_sampled : Decision

abbrev pub path_attributes : List Text
path_attributes = str "url.path" ∷ str "http.route" ∷ str "http.target" ∷ []

abbrev names_operator_path : Option Loose → Bool
names_operator_path none = false
names_operator_path (some undefined) = false
names_operator_path (some other) = false
names_operator_path (some (a_text path)) = matches_path path operator_paths

-- The loop over the attributes.
unfoldable pub ignored_by : List Text → Dict Loose → Bool
unfolding matches_path get
ignored_by [] attributes = false
ignored_by (key ∷ keys) attributes =
    let rest = ignored_by keys attributes in
    if names_operator_path (get key attributes) then true else rest

unfoldable pub is_ignored : Dict Loose → Bool
unfolding ignored_by
is_ignored attributes = ignored_by path_attributes attributes

abbrev pub is_server : SpanKind → Bool
is_server internal = false
is_server server = true
is_server client = false
is_server producer = false
is_server consumer = false

-- The delegate decides on the kind and the attributes, among others that the code passes on.
unfoldable pub should_sample : (SpanKind → Dict Loose → Decision) → SpanKind → Dict Loose → Decision
unfolding is_ignored
should_sample delegate kind attributes =
    if is_server kind && is_ignored attributes then not_record else delegate kind attributes
