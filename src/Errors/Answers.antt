-- ===== src/Errors/Answers.antt =====
-- What the exception filter answers: the status of each error, what a server error says, what is
-- logged, and when a 405 takes the place of a 404.
use advanced_search_api.Base.{
  ℕ, ◌≤◌, ◌<◌, Text, str, none, some, true, false, ◌≡◌, ◌↔◌, ◌⊎◌, inl, inr, refl, arith, List, [],
  ◌∷◌, is_some,
}
use advanced_search_api.Shared.{LogLine, info, warn}
use advanced_search_api.Auth.{Crypto, ApiAuthConfig, presented_key, create_key_identifier}
use advanced_search_api.Errors.{
  one, Exception, http, result_window_exceeded, upstream_response, application_error, domain_error,
  es_response, es_client_error, other, ResolvedError, from_elasticsearch_response, resolve_error,
  is_api_path, is_allowed_method, HttpRequest, upgrade_method_not_allowed, log_exception, catch,
  allow_header_value,
}

abbrev pub IsHttp : Exception → Type 0
IsHttp (http _ _ _ _) = Unit
IsHttp _ = ⊥

-- One of the three fixed answers to a failure on this side of the API.
abbrev pub SaysNothing : ResolvedError → Type 0
SaysNothing r =
    (r.details ≡ none)
    × ((r.message ≡ one (str "Search engine error"))
        ⊎ (r.message ≡ one (str "Search engine unavailable"))
        ⊎ (r.message ≡ one (str "Internal server error")))

-- A server error that is no `HttpException` answers with one of three fixed messages and no details:
-- nothing of the thrown value reaches the client.
pub server_error-SaysNothing :
    (e : Exception)
    → ¬ (IsHttp e)
    → 500 ≤ (resolve_error e).status_code
    → SaysNothing (resolve_error e)
unfolding resolve_error from_elasticsearch_response
server_error-SaysNothing (http s n m b) plain h = absurd (plain tt)
server_error-SaysNothing (result_window_exceeded m) plain h = absurd (omega arith)
server_error-SaysNothing (application_error m) plain h = absurd (omega arith)
server_error-SaysNothing (domain_error m) plain h = absurd (omega arith)
server_error-SaysNothing (upstream_response m) plain h = (refl, inl refl)
server_error-SaysNothing (es_response status) plain h = ground arith
server_error-SaysNothing es_client_error plain h = (refl, inr (inl refl))
server_error-SaysNothing other plain h = (refl, inr (inr refl))

-- The caller may know which paths exist: authentication is off, or its key is one of those.
abbrev pub MayKnow : Crypto → ApiAuthConfig → HttpRequest → Type 0
MayKnow crypto auth request =
    (auth.enabled ≡ false)
    ⊎ (is_some (create_key_identifier crypto auth.keys (presented_key request.key_header)) ≡ true)

-- The `Allow` header is set exactly if the error is a 404, the path is one of the API's, the method
-- is not one that it answers, and the caller may know the paths.
pub allow_iff :
    (crypto : Crypto) (auth : ApiAuthConfig) (request : HttpRequest) (e : Exception) (stack : Text)
    → ((catch crypto auth request e stack).allow ≡ some allow_header_value) ↔ (
        ((resolve_error e).status_code ≡ 404)
        × (is_api_path request.url ≡ true)
        × (is_allowed_method request.method ≡ false)
        × MayKnow crypto auth request)
unfolding catch upgrade_method_not_allowed
allow_iff crypto auth request e stack = ground arith

-- One log line for each answer of status 400 and above, an error from 500 on and a warning below.
abbrev pub IsLogged : ℕ → List LogLine → Type 0
IsLogged status [] = status < 400
IsLogged status (info _ ∷ l) = ⊥
IsLogged status (warn _ ∷ l) = (l ≡ []) × (400 ≤ status) × (status < 500)
IsLogged status (LogLine.error _ _ ∷ l) = (l ≡ []) × (500 ≤ status)

log_exception-IsLogged :
    (request : HttpRequest) (r : ResolvedError) (stack : Text)
    → IsLogged r.status_code (log_exception request r stack)
unfolding log_exception
log_exception-IsLogged request r stack = ground arith

-- Whatever is thrown, the filter logs by the status that it answers with: one error line from 500
-- on, one warning from 400 to 499, and nothing below.
pub catch-IsLogged :
    (crypto : Crypto) (auth : ApiAuthConfig) (request : HttpRequest) (e : Exception) (stack : Text)
    → IsLogged
        (catch crypto auth request e stack).resolved_error.status_code
        (catch crypto auth request e stack).log
unfolding catch
catch-IsLogged crypto auth request e stack =
    log_exception-IsLogged request
      (upgrade_method_not_allowed crypto auth request (resolve_error e)).0 stack
