-- ===== src/Shared.antt =====
-- src/shared: thrown values and their messages, log lines, and the paths that only operators call.
pub mod Paths
use advanced_search_api.Base.{Text, str}

-- A thrown value, as `unknown`: an `Error` with its message, or anything else.
pub data Thrown : Type 0 where
  error_object : Text → Thrown
  other_value : Thrown

-- src/shared/error-message.ts.
unfoldable pub error_message : Thrown → Text
error_message (error_object message) = message
error_message other_value = str "unknown error"

-- What is written to a Nest `Logger`.
pub data LogLine : Type 0 where
  info warn : Text → LogLine
  -- The second text is the stack.
  error : Text → Text → LogLine

-- What an operation that may throw ends with.
pub data Result {ℓ} (A : Type ℓ) : Type ℓ where
  ok : A → Result A
  thrown : Thrown → Result A

-- The same, where what is thrown is of a known type.
pub data Ended (E A : Type 0) : Type 0 where
  returned : A → Ended E A
  raised : E → Ended E A
