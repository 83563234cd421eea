-- ===== src/Startup/SafetyNet.antt =====
-- src/process-safety-net.ts: what happens to a failure outside of a request.
pub mod Exit
use advanced_search_api.Base.{
  ℕ, Text, str, Option, none, some, Bool, true, false, List, [], ◌∷◌, ◌++◌, if◌then◌else◌, ◌or◌,
}
use advanced_search_api.Shared.{Thrown, error_message, LogLine, Result, ok, thrown}

-- What the process does, in order.
pub data Act : Type 0 where
  logged : LogLine → Act
  closing : Act
  exited : ℕ → Act

-- `handling` is the re-entry guard; `closes` says that `app.close()` is awaited.
pub record Net : Type 0 where
  pub handling : Bool
  pub closes : Bool
  pub acts : List Act

-- A rejection or an exception, with the stack if it is an error; or the end of `app.close()`.
pub data Event : Type 0 where
  unhandled_rejection uncaught_exception : Thrown → Option Text → Event
  closed : Result (Unit {0}) → Event

-- `handleFatalError`, up to the call of `app.close()`.
unfoldable pub handle_fatal_error : Text → Thrown → Option Text → Net → Net
unfolding error_message
handle_fatal_error label reason stack s = record s {
  closes = true;
  acts =
      s.acts
      ++ logged (LogLine.error (label ++ (str ": " ++ error_message reason)) (stack or []))
        ∷ closing
        ∷ [];
}

-- The rest of it, once `app.close()` has ended.
unfoldable pub after_close : Result (Unit {0}) → Net → Net
unfolding error_message
after_close (ok _) s = record s { closes = false; acts = s.acts ++ exited 1 ∷ [] }
after_close (thrown e) s = record s {
  closes = false;
  acts =
      s.acts
      ++ logged (LogLine.error (str "Failed to close the app cleanly: " ++ error_message e) [])
        ∷ exited 1
        ∷ [];
}

unfoldable pub on_fatal : Text → Thrown → Option Text → Net → Net
unfolding handle_fatal_error
on_fatal label reason stack s =
    if s.handling then s else handle_fatal_error label reason stack (record s { handling = true })

unfoldable pub step : Event → Net → Net
unfolding on_fatal after_close
step (unhandled_rejection reason stack) s =
    on_fatal (str "Unhandled promise rejection") reason stack s
step (uncaught_exception reason stack) s = on_fatal (str "Uncaught exception") reason stack s
step (closed r) s = if s.closes then after_close r s else s

abbrev pub installed : Net
installed = record { handling = false; closes = false; acts = [] }
