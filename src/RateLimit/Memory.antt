-- ===== src/RateLimit/Memory.antt =====
-- src/infrastructure/rate-limit/in-memory-rate-limit.store.ts: the per-process counter store. The
-- time of a call, `Date.now()`, is an argument; the store comes back beside the answer.
pub mod Sweep
pub mod Reference
pub mod Counting
use advanced_search_api.Base.{
  ℕ, suc, ◌+◌, ◌-◌, Text, Option, none, some, Bool, not, ◌&&◌, List, [], ◌∷◌, leb, ltb, length,
  if◌then◌else◌, keep,
}
use advanced_search_api.Base.Int.{ℤ, pos}
use advanced_search_api.Base.Dict.{Dict, get, put}

-- `RateLimitHit` of src/application/ports/rate-limit-store.port.ts. The time left is negative
-- only where Redis reports a key without an expiry.
pub record RateLimitHit : Type 0 where
  pub total_hits : ℕ
  pub time_to_expire_ms : ℤ

pub record Window : Type 0 where
  pub count : ℕ
  pub expires_at : ℕ

pub record MemoryStore : Type 0 where
  pub windows : Dict Window
  pub last_sweep_at : ℕ

abbrev pub sweep_interval_ms : ℕ
sweep_interval_ms = 30000

abbrev pub sweep_size_threshold : ℕ
sweep_size_threshold = 10000

unfoldable pub new_store : MemoryStore
new_store = record { windows = []; last_sweep_at = 0 }

abbrev pub is_live : ℕ → Window → Bool
is_live now w = not (leb w.expires_at now)

-- The loop that deletes each expired entry.
unfoldable pub evict : ℕ → Dict Window → Dict Window
unfolding keep
evict now windows = keep (λ e. is_live now e.1) windows

unfoldable pub maybe_evict_expired : ℕ → MemoryStore → MemoryStore
maybe_evict_expired now s =
    let due = leb (s.last_sweep_at + sweep_interval_ms) now in
    if not due && ltb (length s.windows) sweep_size_threshold
    then s
    else record { windows = evict now s.windows; last_sweep_at = now }

abbrev open_window : Text → ℕ → ℕ → MemoryStore → RateLimitHit × MemoryStore
open_window key window_ms now s = (
  record { total_hits = 1; time_to_expire_ms = pos window_ms },
  record s { windows = put key (record { count = 1; expires_at = now + window_ms }) s.windows },
)

abbrev count_in : Text → ℕ → Window → MemoryStore → RateLimitHit × MemoryStore
count_in key now w s = (
  record { total_hits = w.count + 1; time_to_expire_ms = pos (w.expires_at - now) },
  record s {
    windows = put key (record { count = w.count + 1; expires_at = w.expires_at }) s.windows;
  },
)

abbrev answer : Text → ℕ → ℕ → MemoryStore → Option Window → RateLimitHit × MemoryStore
answer key window_ms now s none = open_window key window_ms now s
answer key window_ms now s (some w) =
    if leb w.expires_at now then open_window key window_ms now s else count_in key now w s

unfoldable pub hit : Text → ℕ → ℕ → MemoryStore → RateLimitHit × MemoryStore
hit key window_ms now s =
    let swept = maybe_evict_expired now s in answer key window_ms now swept (get key swept.windows)

-- One call of `hit`, and a run of calls with the answers in order.
pub record Request : Type 0 where
  pub key : Text
  pub window_ms : ℕ
  pub at : ℕ

unfoldable pub run : List Request → MemoryStore → List RateLimitHit × MemoryStore
run [] s = ([], s)
run (r ∷ rs) s =
    let (h, s') = hit r.key r.window_ms r.at s in let (hs, s'') = run rs s' in (h ∷ hs, s'')
