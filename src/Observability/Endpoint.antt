-- ===== src/Observability/Endpoint.antt =====
-- src/presentation/metrics/metrics.controller.ts: the endpoint that is scraped.
pub mod Guarded
use advanced_search_api.Base.{
  Text, str, Option, none, some, Bool, true, false, List, ◌++◌, if◌then◌else◌, text_eq,
}
use advanced_search_api.Base.Dict.{Dict, put}
use advanced_search_api.Config.{AppConfiguration}
use advanced_search_api.Observability.Metrics.{Adapter, Sample, content_type, render_metrics}

abbrev bearer : Text → Text
bearer token = str "Bearer " ++ token

abbrev sent_bearer : Text → Option Text → Bool
sent_bearer token none = false
sent_bearer token (some authorization) = text_eq authorization (bearer token)

-- `assertAuthorized`: `false` stands for the `UnauthorizedException` that it throws.
unfoldable pub assert_authorized : Option Text → Option Text → Bool
unfolding text_eq
assert_authorized none authorization = true
assert_authorized (some token) authorization = sent_bearer token authorization

-- How the handler ends: 401, or the headers of the response and the body.
pub data Scraped : Type 0 where
  unauthorized : Scraped
  scraped : Dict Text → Text → Scraped

-- `exposition` and `registry_type` are the registry's.
unfoldable pub metrics :
    (List Sample → Text) → Text → AppConfiguration → Adapter → Option Text → Dict Text → Scraped
unfolding assert_authorized content_type render_metrics put
metrics exposition registry_type config exporter authorization headers =
    if assert_authorized config.observability.metrics_token authorization
    then scraped
        (put (str "Cache-Control") (str "no-store")
          (put (str "Content-Type") (content_type registry_type exporter) headers))
        (render_metrics exposition exporter)
    else unauthorized
