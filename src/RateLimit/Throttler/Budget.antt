-- ===== src/RateLimit/Throttler/Budget.antt =====
-- How many requests a client gets within a window, and what it is told to wait.
use advanced_search_api.Base.{
  ℕ, ◌+◌, ◌*◌, ◌≤◌, ◌<◌, Text, none, false, ◌≡◌, ◌↔◌, arith, List, ◌∷◌, All, ltb, str, ◌++◌,
}
use advanced_search_api.Base.Dict.{get, Distinct}
use advanced_search_api.RateLimit.Memory.{MemoryStore, Request, hit, run}
use advanced_search_api.RateLimit.Memory.Sweep.{live}
use advanced_search_api.RateLimit.Memory.Counting.{count_key, window-total}
use advanced_search_api.RateLimit.Throttler.{increment}

blocked_iff : (limit total : ℕ) → (ltb limit total ≡ false) ↔ (total ≤ limit)
blocked_iff limit total = (λ h. ground arith, λ h. ground arith)

-- Over the in-memory store: within the window that a request opened for the key of a throttler and
-- a client, a later call of `increment` for the same two is blocked exactly if the requests for
-- that key so far, itself included, exceed the limit: `limit` are served and the next is refused.
-- The wait that it reports covers the rest of the window, and by less than one second.
pub budget_of_window :
    (limit ttl now : ℕ) (name client : Text) (first : Request) (rs : List Request) (s : MemoryStore)
    → Distinct s.windows
    → live first.at (get first.key s.windows) ≡ none
    → name ++ str ":" ++ client ≡ first.key
    → All (λ r. r.at < first.at + first.window_ms) rs
    → now < first.at + first.window_ms
    → (let told = (increment (λ k w. hit k w now) client ttl limit name (run (first ∷ rs) s).1).0 in
        ((told.is_blocked ≡ false) ↔ (count_key first.key rs + 2 ≤ limit))
        × (first.at + first.window_ms ≤ now + told.time_to_block_expire * 1000)
        × (now + told.time_to_block_expire * 1000 < first.at + first.window_ms + 1000))
unfolding increment
budget_of_window limit ttl now name client first rs s d fresh same hs h =
    rw
      (window-total first rs (record { key = name ++ str ":" ++ client; window_ms = ttl; at = now })
        s d fresh same hs h)
      (blocked_iff limit (count_key first.key rs + 2), omega arith, omega arith)
