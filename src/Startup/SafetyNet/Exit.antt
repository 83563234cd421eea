-- ===== src/Startup/SafetyNet/Exit.antt =====
-- The process shuts down once, and exits.
use advanced_search_api.Base.{
  Text, str, Option, true, false, ◌≡◌, refl, sym, ap, ◌∙◌, List, [], ◌∷◌, ◌++◌, arith, append-nil,
  ◌or◌,
}
use advanced_search_api.Shared.{Thrown, error_message, LogLine, Result, ok, thrown}
use advanced_search_api.Startup.SafetyNet.{
  Act, logged, closing, exited, Net, Event, unhandled_rejection, uncaught_exception, closed,
  handle_fatal_error, after_close, on_fatal, step, installed,
}

unfoldable pub run : List Event → Net → Net
run [] s = s
run (e ∷ es) s = run es (step e s)

-- A failure that escapes.
pub data Failure : Type 0 where
  rejection exception : Thrown → Option Text → Failure

abbrev pub event_of : Failure → Event
event_of (rejection reason stack) = unhandled_rejection reason stack
event_of (exception reason stack) = uncaught_exception reason stack

abbrev pub label_of : Failure → Text
label_of (rejection _ _) = str "Unhandled promise rejection"
label_of (exception _ _) = str "Uncaught exception"

abbrev pub line_of : Failure → LogLine
line_of (rejection reason stack) =
    LogLine.error (str "Unhandled promise rejection" ++ (str ": " ++ error_message reason))
      (stack or [])
line_of (exception reason stack) =
    LogLine.error (str "Uncaught exception" ++ (str ": " ++ error_message reason)) (stack or [])

abbrev pub events_of : List Failure → List Event
events_of [] = []
events_of (f ∷ fs) = event_of f ∷ events_of fs

-- What the end of `app.close()` adds.
abbrev pub ending : Result (Unit {0}) → List Act
ending (ok _) = exited 1 ∷ []
ending (thrown e) =
    logged (LogLine.error (str "Failed to close the app cleanly: " ++ error_message e) [])
    ∷ exited 1
    ∷ []

guarded : (f : Failure) (s : Net) → s.handling ≡ true → step (event_of f) s ≡ s
unfolding step on_fatal
guarded (rejection r t) s h = ground arith
guarded (exception r t) s h = ground arith

ignored :
    (fs : List Failure) (es : List Event) (s : Net)
    → s.handling ≡ true
    → run (events_of fs ++ es) s ≡ run es s
unfolding run
ignored [] es s h = refl
ignored (f ∷ fs) es s h = ap (run (events_of fs ++ es)) (guarded f s h) ∙ ignored fs es s h

-- The first failure, the end of the closing, and the state in between.
begun :
    (f : Failure)
    → (step (event_of f) installed
        ≡ record { handling = true; closes = true; acts = logged (line_of f) ∷ closing ∷ [] })
unfolding step on_fatal handle_fatal_error
begun (rejection r t) = refl
begun (exception r t) = refl

ended :
    (r : Result (Unit {0})) (acts : List Act)
    → step (closed r) (record { handling = true; closes = true; acts = acts })
      ≡ record { handling = true; closes = false; acts = acts ++ ending r }
unfolding step after_close
ended (ok _) acts = refl
ended (thrown e) acts = refl

-- Whatever failures escape, before and while the application closes, and however the closing ends: the
-- first one is logged with its kind, the application is closed once, and the process exits once, with
-- code 1, at the end of the closing; the others do nothing.
pub run-exits_once :
    (f : Failure) (before after : List Failure) (r : Result (Unit {0}))
    → (run (event_of f ∷ (events_of before ++ closed r ∷ events_of after)) installed).acts
      ≡ logged (line_of f) ∷ closing ∷ ending r
unfolding run
run-exits_once f before after r =
    let acts = logged (line_of f) ∷ closing ∷ [] in
    let rest = closed r ∷ events_of after in
    let done : Net = record { handling = true; closes = false; acts = acts ++ ending r } in
    ap (λ (s : Net). s.acts)
      (ap (run (events_of before ++ rest)) (begun f)
        ∙ ignored before rest _ refl
        ∙ ap (run (events_of after)) (ended r acts)
        ∙ ap (λ es. run es done) (sym (append-nil (events_of after)))
        ∙ ignored after [] done refl)
