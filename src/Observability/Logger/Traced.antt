-- ===== src/Observability/Logger/Traced.antt =====
-- The log lines of one request carry its id.
use advanced_search_api.Base.{
  Text, Option, none, some, true, ◌≡◌, ◌≢◌, refl, List, [], ◌∷◌, All, arith, every, Bool-cases, inl,
  inr, length, ◌≤◌, text_eq,
}
use advanced_search_api.Base.Dict.{Dict, get, get-put}
use advanced_search_api.Auth.{Header}
use advanced_search_api.Config.Environment.{LogLevel}
use advanced_search_api.Observability.Correlation.{
  is_safe_char, is_safe_id, candidate_of, safe_or, resolve_correlation_id, correlation_header,
  correlation_id_middleware, Stored, get_correlation_id,
}
use advanced_search_api.Observability.Logger.{Message, Param, Line, write}

-- What one statement logs.
abbrev pub Written : Type 0
Written = LogLevel × Message × List Param

abbrev pub lines_of : List Written → Stored (List Line)
lines_of [] stored = []
lines_of ((level, message, params) ∷ more) stored =
    write level message params stored ∷ lines_of more stored

-- No line breaks, and no more than 128 characters.
abbrev pub IsHarmless : Text → Type 0
IsHarmless id = All (λ c. (c ≢ b'\r') × (c ≢ b'\n')) id × (1 ≤ length id) × (length id ≤ 128)

every-harmless :
    (id : Text) → every is_safe_char id ≡ true → All (λ c. (c ≢ b'\r') × (c ≢ b'\n')) id
unfolding every
every-harmless [] h = tt
every-harmless (c ∷ s) h = ((ground arith, ground arith), every-harmless s (ground arith))

pub is_safe_id-IsHarmless : (id : Text) → is_safe_id id ≡ true → IsHarmless id
unfolding is_safe_id
is_safe_id-IsHarmless id h = (every-harmless id (ground arith), ground arith, ground arith)

safe_or-is_safe :
    (random : Text) (candidate : Option Text)
    → is_safe_id random ≡ true
    → (is_safe_id (safe_or random candidate) ≡ true)
      × ((c : Text) → candidate ≡ some c → is_safe_id c ≡ true → safe_or random candidate ≡ c)
safe_or-is_safe random none safe = (safe, λ c e h. cc)
safe_or-is_safe random (some t) safe = elim (Bool-cases (is_safe_id t)) [
  | inl good ↦ (rw good good, λ c e h. ground arith)
  | inr bad ↦ (rw bad safe, λ c e h. ground arith)
]

lines_of-correlated :
    (id : Text) (writes : List Written)
    → All (λ (l : Line). l.correlation_id ≡ some id) (lines_of writes (some id))
unfolding write get_correlation_id
lines_of-correlated id [] = tt
lines_of-correlated id ((level, message, params) ∷ more) = (refl, lines_of-correlated id more)

-- Whatever header a request comes with, and whatever is logged while it is handled: the answer's
-- X-Request-Id is an id of 1 to 128 characters without a line break, every line that the handling logs
-- carries this id, and it is the one of the request if that one is safe. The generated ids are taken to be
-- safe, as UUIDs are.
pub correlation_id_middleware-traced :
    (random : Text) (inbound : Header) (headers : Dict Text) (writes : List Written)
    → is_safe_id random ≡ true
    → let (answered, lines) = correlation_id_middleware random inbound headers (lines_of writes) in
      (id : Text) × (get correlation_header answered ≡ some id)
      × IsHarmless id
      × All (λ (l : Line). l.correlation_id ≡ some id) lines
      × ((c : Text) → candidate_of inbound ≡ some c → is_safe_id c ≡ true → id ≡ c)
unfolding correlation_id_middleware text_eq
correlation_id_middleware-traced random inbound headers writes safe =
    let (good, honoured) = safe_or-is_safe random (candidate_of inbound) safe in
    let id = resolve_correlation_id random inbound in
    (
      id,
      rw (get-put correlation_header correlation_header id headers) refl,
      is_safe_id-IsHarmless id good,
      lines_of-correlated id writes,
      honoured,
    )
