-- ===== src/Errors.antt =====
-- src/presentation/common/all-exceptions.filter.ts and api-routes.ts: how a thrown value becomes an
-- HTTP answer and a log line. The errors are those of src/application/errors and src/domain/errors.
pub mod Answers
pub mod Disclosure
use advanced_search_api.Base.{
  ℕ, ◌-◌, Text, str, Option, none, some, Bool, true, false, not, ◌&&◌, ◌||◌, List, [], ◌∷◌, ◌++◌,
  ◌==◌, leb, if◌then◌else◌, text_eq, any, is_some,
}
use advanced_search_api.Base.Decimal.{to_decimal}
use advanced_search_api.Shared.{LogLine, warn}
use advanced_search_api.Shared.Paths.{path_without_query}
use advanced_search_api.Auth.{Crypto, Header, ApiAuthConfig, presented_key, create_key_identifier}

-- `string | string[]`.
pub data Message : Type 0 where
  one : Text → Message
  many : List Text → Message

-- What `HttpException.getResponse()` gives: a string, or a body with optional `message` and `error`.
pub data HttpBody : Type 0 where
  plain : Text → HttpBody
  fields : Option Message → Option Text → HttpBody

-- The thrown values that the filter tells apart. `http` has the status, the name, the message and
-- the body; `es_response` the status of the answer, `other` is all else.
pub data Exception : Type 0 where
  http : ℕ → Text → Text → HttpBody → Exception
  result_window_exceeded upstream_response application_error domain_error : Text → Exception
  es_response : Option ℕ → Exception
  es_client_error other : Exception

pub record ResolvedError : Type 0 where
  pub status_code : ℕ
  pub error : Text
  pub message : Message
  pub details : Option (List Text)

abbrev resolved : ℕ → Text → Text → ResolvedError
resolved status_code error message = record {
  status_code = status_code;
  error = error;
  message = one message;
  details = none;
}

abbrev or_name : Option Text → Text → Text
or_name none name = name
or_name (some e) name = e

unfoldable pub from_http_exception : ℕ → Text → Text → HttpBody → ResolvedError
from_http_exception status name message (plain text) = resolved status name text
from_http_exception status name message (fields none e) = resolved status (or_name e name) message
from_http_exception status name message (fields (some (one text)) e) =
    resolved status (or_name e name) text
from_http_exception status name message (fields (some (many texts)) e) = record {
  status_code = status;
  error = or_name e name;
  message = one (str "Validation failed");
  details = some texts;
}

abbrev is_400 : Option ℕ → Bool
is_400 none = false
is_400 (some status) = status == 400

unfoldable pub from_elasticsearch_response : Option ℕ → ResolvedError
from_elasticsearch_response status =
    if is_400 status
    then resolved 400 (str "Bad Request") (str "Invalid search query")
    else resolved 502 (str "Bad Gateway") (str "Search engine error")

unfoldable pub resolve_error : Exception → ResolvedError
unfolding from_http_exception from_elasticsearch_response
resolve_error (http status name message body) = from_http_exception status name message body
resolve_error (result_window_exceeded message) = resolved 422 (str "Unprocessable Entity") message
resolve_error (upstream_response message) =
    resolved 502 (str "Bad Gateway") (str "Search engine error")
resolve_error (application_error message) = resolved 400 (str "Bad Request") message
resolve_error (domain_error message) = resolved 400 (str "Bad Request") message
resolve_error (es_response status) = from_elasticsearch_response status
resolve_error es_client_error =
    resolved 503 (str "Service Unavailable") (str "Search engine unavailable")
resolve_error other = resolved 500 (str "Internal Server Error") (str "Internal server error")

abbrev pub api_paths : List Text
api_paths =
    str "/"
    ∷ str "/search"
    ∷ str "/autocomplete"
    ∷ str "/suggest"
    ∷ str "/health"
    ∷ str "/metrics"
    ∷ []

abbrev pub allowed_methods : List Text
allowed_methods = str "GET" ∷ str "HEAD" ∷ str "OPTIONS" ∷ []

abbrev pub allow_header_value : Text
allow_header_value = str "GET, HEAD, OPTIONS"

-- `split('?')[0]`, the part before the first "?".
unfoldable pub before_query : Text → Text
before_query [] = []
before_query (c ∷ s) = if c == b'?' then [] else c ∷ before_query s

unfoldable pub is_api_path : Text → Bool
unfolding any before_query text_eq
is_api_path path = any (λ known. text_eq known (before_query path)) api_paths

-- `toUpperCase`; the methods of HTTP are ASCII.
unfoldable pub to_upper_case : Text → Text
to_upper_case [] = []
to_upper_case (c ∷ s) = (if leb b'a' c && leb c b'z' then c - 32 else c) ∷ to_upper_case s

unfoldable pub is_allowed_method : Text → Bool
unfolding any to_upper_case text_eq
is_allowed_method method = any (λ allowed. text_eq allowed (to_upper_case method)) allowed_methods

pub record HttpRequest : Type 0 where
  pub method : Text
  pub url : Text
  pub key_header : Header

-- The resolved error, and the `Allow` header if one is set.
unfoldable pub upgrade_method_not_allowed :
    Crypto → ApiAuthConfig → HttpRequest → ResolvedError → ResolvedError × Option Text
upgrade_method_not_allowed crypto auth request r =
    if not (r.status_code == 404)
    then (r, none)
    else if not (is_api_path request.url) || is_allowed_method request.method
    then (r, none)
    else if auth.enabled
        && not (is_some (create_key_identifier crypto auth.keys (presented_key request.key_header)))
    then (r, none)
    else (
      resolved 405 (str "Method Not Allowed")
          (request.method ++ str " is not supported on this endpoint; use " ++ allow_header_value),
      some allow_header_value,
    )

-- `join("; ")`.
unfoldable pub join_reasons : List Text → Text
join_reasons [] = []
join_reasons (t ∷ []) = t
join_reasons (t ∷ u ∷ ts) = t ++ str "; " ++ join_reasons (u ∷ ts)

abbrev summary_of : Message → Text
summary_of (one text) = text
summary_of (many texts) = join_reasons texts

unfoldable pub message_summary : ResolvedError → Text
unfolding join_reasons
message_summary r = elim r.details [
  | none ↦ summary_of r.message
  | some [] ↦ summary_of r.message
  | some (d ∷ ds) ↦ join_reasons (d ∷ ds)
]

unfoldable pub log_exception : HttpRequest → ResolvedError → Text → List LogLine
unfolding path_without_query to_decimal message_summary
log_exception request r stack =
    let line =
      request.method
      ++ str " "
      ++ path_without_query request.url
      ++ str " -> "
      ++ to_decimal r.status_code in
    if leb 500 r.status_code
    then LogLine.error line stack ∷ []
    else if leb 400 r.status_code
    then warn (line ++ str " " ++ message_summary r) ∷ []
    else []

-- The answer that `catch` sends, and what it logs. The body is the resolved error with the path; its
-- time stamp is left out.
pub record Answer : Type 0 where
  pub resolved_error : ResolvedError
  pub path : Text
  pub allow : Option Text
  pub log : List LogLine

unfoldable pub catch : Crypto → ApiAuthConfig → HttpRequest → Exception → Text → Answer
catch crypto auth request e stack =
    let (r, allow) = upgrade_method_not_allowed crypto auth request (resolve_error e) in
    record {
      resolved_error = r;
      path = request.url;
      allow = allow;
      log = log_exception request r stack;
    }
