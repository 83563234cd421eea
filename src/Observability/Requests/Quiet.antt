-- ===== src/Observability/Requests/Quiet.antt =====
-- The paths that only operators call leave no log line and no trace.
use advanced_search_api.Base.{
  ℕ, Text, str, ◌≡◌, refl, ◌↔◌, inl, inr, [], ◌∷◌, Bool-cases, arith, text_eq,
}
use advanced_search_api.Base.Dict.{Dict, get}
use advanced_search_api.Shared.Paths.{matches_path, operator_paths, path_without_query}
use advanced_search_api.Shared.Paths.Matching.{IsBelowAny, matches_path_iff}
use advanced_search_api.Observability.Requests.{
  Loose, a_text, Answered, intercept, SpanKind, server, Decision, not_record, is_ignored,
  should_sample,
}

-- Where the semantic conventions put the path of a request.
pub data Convention : Type 0 where
  in_url_path in_http_route in_http_target : Convention

abbrev pub span_of : Convention → Text → Dict Loose
span_of in_url_path path = (str "url.path", a_text path) ∷ []
span_of in_http_route path = (str "http.route", a_text path) ∷ []
span_of in_http_target path = (str "http.target", a_text path) ∷ []

ignored_span :
    (where_to : Convention) (path : Text)
    → is_ignored (span_of where_to path) ≡ matches_path path operator_paths
unfolding is_ignored get text_eq
ignored_span in_url_path path = ground arith
ignored_span in_http_route path = ground arith
ignored_span in_http_target path = ground arith

-- For every request, with any query string, any sampler behind the filter and any attribute in which the
-- conventions put the path: its log line is left out
-- exactly if the path is /health or /metrics or lies below one of them; for exactly these paths the
-- server's span is dropped whatever the sampler behind would say, and for all others that one decides.
pub operator_paths_are_quiet :
    (delegate : SpanKind → Dict Loose → Decision) (where_to : Convention) (request : Answered)
    (elapsed_ms : ℕ)
    → ((intercept request elapsed_ms ≡ [])
        ↔ IsBelowAny (path_without_query request.url) operator_paths)
      × (IsBelowAny (path_without_query request.url) operator_paths
          → should_sample delegate server (span_of where_to request.url) ≡ not_record)
      × (¬ (IsBelowAny (path_without_query request.url) operator_paths)
          → should_sample delegate server (span_of where_to request.url)
            ≡ delegate server (span_of where_to request.url))
unfolding intercept should_sample
operator_paths_are_quiet delegate where_to request elapsed_ms =
    let (sound, complete) = matches_path_iff request.url operator_paths in
    elim (Bool-cases (matches_path request.url operator_paths)) [
      | inl quiet ↦ (
        ((λ _. sound quiet), (λ _. rw quiet refl)),
        (λ _. rw (ignored_span where_to request.url, quiet) refl),
        (λ n. absurd (n (sound quiet))),
      )
      | inr loud ↦ (
        ((λ e. ground arith), (λ b. let m = complete b in absurd (cc))),
        (λ b. let m = complete b in absurd (cc)),
        (λ _. rw (ignored_span where_to request.url, loud) refl),
      )
    ]
