-- ===== src/Gateway/Flood.antt =====
-- A flood without keys: what reaches the key check, and what does not.
use advanced_search_api.Base.{
  ℕ, zero, suc, ◌+◌, ◌-◌, ◌*◌, ◌≤◌, ◌<◌, Text, str, ◌++◌, none, some, Bool, true, false, ◌≡◌, refl,
  sym, ap, ◌∙◌, List, [], ◌∷◌, All, ltb, arith, if◌then◌else◌, ◌or◌,
}
use advanced_search_api.Base.Dict.{get, Distinct}
use advanced_search_api.Shared.Paths.{matches_path, operator_paths}
use advanced_search_api.Auth.{
  Crypto, ApiAuthConfig, can_activate, create_key_identifier, presented_key,
}
use advanced_search_api.RateLimit.Memory.{MemoryStore, Window, Request, hit}
use advanced_search_api.RateLimit.Memory.Sweep.{live, hit-Distinct}
use advanced_search_api.RateLimit.Memory.Counting.{
  hit_fresh, get-hit_fresh, get-hit_same, hit_in_window,
}
use advanced_search_api.RateLimit.Options.{RateLimitConfig, skip_if, resolve_limit, resolve_tracker}
use advanced_search_api.RateLimit.Throttler.{increment, to_record}
use advanced_search_api.RateLimit.Guard.{
  ThrottlerLibrary, build_throttler_options, throttler_module_options, throttling_exception,
}
use advanced_search_api.Gateway.{
  Verdict, admitted, refused, unauthorized_exception, rate_limit_guard, api_key_guard,
  global_guards, then_guard, Arrival, gate,
}

-- The first `n` of the requests get 401, the others 429.
unfoldable pub flood_answers : ℕ → List Arrival → List Verdict
flood_answers n [] = []
flood_answers zero (a ∷ more) = refused throttling_exception ∷ flood_answers zero more
flood_answers (suc n) (a ∷ more) = refused unauthorized_exception ∷ flood_answers n more

-- The key that the requests of an address to a route are counted under.
abbrev pub key_of : ThrottlerLibrary MemoryStore → Text → Text → Text
key_of library route address =
    str "default" ++ str ":" ++ library.generate_key route address (str "default")

module _ (library : ThrottlerLibrary MemoryStore) (crypto : Crypto) (rate_limit : RateLimitConfig)
    (auth : ApiAuthConfig) (route address : Text) (limit ends : ℕ) where
  -- A request without a configured key, from the address, for a metered endpoint with the limit, that
  -- comes before `ends`.
  abbrev pub IsStranger : Arrival → Type 0
  IsStranger a =
      (create_key_identifier crypto auth.keys (presented_key a.request.key_header) ≡ none)
      × (a.request.ip ≡ some address)
      × (skip_if rate_limit a.request ≡ false)
      × (resolve_limit a.request rate_limit ≡ limit)
      × (matches_path (a.request.url or []) operator_paths ≡ false)
      × (a.at < ends)

  abbrev flood_key : Text
  flood_key = key_of library route address

  no_key :
      (on : auth.enabled ≡ true) (a : Arrival)
      → IsStranger a
      → api_key_guard crypto auth a.request ≡ refused unauthorized_exception
  unfolding api_key_guard can_activate
  no_key on a (unknown, _, _, _, outside, _) = rw (on, outside, unknown) refl

  abbrev as_request : Arrival → Request
  as_request a = record { key = flood_key; window_ms = rate_limit.window_seconds * 1000; at = a.at }

  counted_once :
      (a : Arrival) (s : MemoryStore)
      → IsStranger a
      → rate_limit_guard library crypto rate_limit auth (λ k w t. hit k w a.at t) route a.request s
        ≡ (let (h, s') = hit flood_key (rate_limit.window_seconds * 1000) a.at s in
            (if ltb limit h.total_hits then refused throttling_exception else admitted, s'))
  unfolding rate_limit_guard throttler_module_options build_throttler_options increment to_record
      resolve_tracker
  counted_once a s (unknown, from, metered, same, _, _) =
      ap
        (λ (told : Bool × MemoryStore).
          (if told.0 then refused throttling_exception else admitted, told.1))
        (library.counted (increment (λ k w t. hit k w a.at t))
          (throttler_module_options crypto rate_limit auth) route a.request s metered)
      ∙ rw (unknown, from, same) refl

  verdict_of : ℕ → Verdict
  verdict_of total =
      if ltb limit total then refused throttling_exception else refused unauthorized_exception

  then_key_check :
      (b : Bool) (s : MemoryStore)
      → then_guard
          (if b then refused throttling_exception else admitted, s)
          (refused unauthorized_exception)
        ≡ (if b then refused throttling_exception else refused unauthorized_exception, s)
  then_key_check true s = refl
  then_key_check false s = refl

  one_gate :
      (on : auth.enabled ≡ true) (a : Arrival) (s : MemoryStore)
      → IsStranger a
      → global_guards library crypto rate_limit auth (λ k w t. hit k w a.at t) route a.request s ≡ (
          let (h, s') = hit flood_key (rate_limit.window_seconds * 1000) a.at s in
          (verdict_of h.total_hits, s'))
  unfolding global_guards verdict_of
  one_gate on a s stranger =
      rw (counted_once a s stranger, no_key on a stranger) (then_key_check _ _)

  over : (c : ℕ) → limit ≤ c → verdict_of (c + 1) ≡ refused throttling_exception
  unfolding verdict_of
  over c h = ground arith

  within : (c : ℕ) → c < limit → verdict_of (c + 1) ≡ refused unauthorized_exception
  unfolding verdict_of
  within c h = ground arith

  spent :
      (n c : ℕ) (a : Arrival) (more : List Arrival)
      → n ≡ limit - c
      → flood_answers n (a ∷ more) ≡ verdict_of (c + 1) ∷ flood_answers (limit - (c + 1)) more
  unfolding flood_answers
  spent zero c a more e =
      let none_left : limit - (c + 1) ≡ 0 = omega arith in rw (over c (omega arith), none_left) refl
  spent (suc n) c a more e =
      let one_less : limit - (c + 1) ≡ n = omega arith in rw (within c (omega arith), one_less) refl

  gate_from :
      (on : auth.enabled ≡ true) (requests : List Arrival) (c : ℕ) (s : MemoryStore)
      → All IsStranger requests
      → Distinct s.windows
      → get flood_key s.windows ≡ some (record { count = c; expires_at = ends })
      → gate library crypto rate_limit auth route requests s ≡ flood_answers (limit - c) requests
  unfolding gate flood_answers
  gate_from on [] c s h d there = refl
  gate_from on (a ∷ more) c s (h, hs) d there =
      let w : Window = record { count = c; expires_at = ends } in
      let r = as_request a in
      let before = h.5 in
      let total = hit_in_window flood_key r s w d there before refl in
      let rest =
        gate_from on more (c + 1) (hit flood_key (rate_limit.window_seconds * 1000) a.at s).1 hs
          (hit-Distinct flood_key (rate_limit.window_seconds * 1000) a.at s d)
          (get-hit_same flood_key r s w d there before refl) in
      rw (one_gate on a s h, total, rest) (sym (spent (limit - c) c a more refl))

-- With authentication on, for requests that present no key or none that is configured, from one address
-- to one route that is metered and is no operator path, within the window that the first of them opens:
-- as many as the limit get 401 and all the others 429, in this order, whatever keys they try; none is
-- admitted. The store may hold any other windows.
pub gate_flood :
    (library : ThrottlerLibrary MemoryStore) (crypto : Crypto) (rate_limit : RateLimitConfig)
    (auth : ApiAuthConfig) (route address : Text) (limit : ℕ) (first : Arrival)
    (more : List Arrival) (s : MemoryStore)
    → auth.enabled ≡ true
    → Distinct s.windows
    → live first.at (get (key_of library route address) s.windows) ≡ none
    → All
        (IsStranger library crypto rate_limit auth route address limit
          (first.at + rate_limit.window_seconds * 1000))
        (first ∷ more)
    → gate library crypto rate_limit auth route (first ∷ more) s
      ≡ flood_answers limit (first ∷ more)
unfolding gate
gate_flood library crypto rate_limit auth route address limit first more s on d fresh (h, hs) =
    let ends = first.at + rate_limit.window_seconds * 1000 in
    let key = key_of library route address in
    let r : Request = record {
      key = key;
      window_ms = rate_limit.window_seconds * 1000;
      at = first.at;
    } in
    let rest =
      gate_from library crypto rate_limit auth route address limit ends on more 1
        (hit key (rate_limit.window_seconds * 1000) first.at s).1 hs
        (hit-Distinct key (rate_limit.window_seconds * 1000) first.at s d)
        (get-hit_fresh r s d fresh) in
    rw
      (
        one_gate library crypto rate_limit auth route address limit ends on first s h,
        hit_fresh r s d fresh,
        rest,
      )
      (sym (
        spent library crypto rate_limit auth route address limit ends limit 0 first more
          (omega arith)))
