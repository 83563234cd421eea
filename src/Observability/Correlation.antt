-- ===== src/Observability/Correlation.antt =====
-- src/presentation/common/correlation-id.middleware.ts and src/shared/correlation.store.ts: the id of a
-- request, in the answer's header and in the store that its log lines read.
use advanced_search_api.Base.{
  ℕ, Text, str, Option, none, some, Bool, ◌&&◌, ◌||◌, leb, length, every, if◌then◌else◌, ◌==◌,
}
use advanced_search_api.Base.Dict.{Dict, put}
use advanced_search_api.Auth.{Header, absent, single, several, first_value}

-- `/^[A-Za-z0-9._:-]{1,128}$/`.
abbrev pub is_safe_char : ℕ → Bool
is_safe_char c =
    (leb b'A' c && leb c b'Z')
    || (leb b'a' c && leb c b'z')
    || (leb b'0' c && leb c b'9')
    || c == b'.'
    || c == b'_'
    || c == b':'
    || c == b'-'

unfoldable pub is_safe_id : Text → Bool
unfolding every
is_safe_id id = every is_safe_char id && (leb 1 (length id) && leb (length id) 128)

abbrev pub candidate_of : Header → Option Text
candidate_of absent = none
candidate_of (single v) = some v
candidate_of (several vs) = first_value vs

abbrev pub safe_or : Text → Option Text → Text
safe_or random none = random
safe_or random (some candidate) = if is_safe_id candidate then candidate else random

-- `random` is what `randomUUID` gives.
unfoldable pub resolve_correlation_id : Text → Header → Text
unfolding is_safe_id first_value
resolve_correlation_id random inbound = safe_or random (candidate_of inbound)

-- The async store: `run` gives its function the id, and outside of it there is none.
abbrev pub Stored : Type 0 → Type 0
Stored A = Option Text → A

unfoldable pub run_with_correlation_id : {A : Type 0} → Text → Stored A → A
run_with_correlation_id id fn = fn (some id)

unfoldable pub get_correlation_id : Stored (Option Text)
get_correlation_id stored = stored

abbrev pub correlation_header : Text
correlation_header = str "X-Request-Id"

-- The headers of the response, and what the rest of the pipeline gives.
unfoldable pub correlation_id_middleware :
    {A : Type 0} → Text → Header → Dict Text → Stored A → Dict Text × A
unfolding resolve_correlation_id run_with_correlation_id put
correlation_id_middleware random inbound headers next =
    let id = resolve_correlation_id random inbound in
    (put correlation_header id headers, run_with_correlation_id id next)
