-- ===== src/RateLimit/Throttler.antt =====
-- src/infrastructure/rate-limit/throttler-store.adapter.ts: the record that the throttler guard reads.
pub mod Budget
use advanced_search_api.Base.{ℕ, Text, str, Bool, ◌++◌, ltb}
use advanced_search_api.Base.Int.{seconds_up}
use advanced_search_api.RateLimit.Memory.{RateLimitHit}

-- `ThrottlerStorageRecord`: times in seconds.
pub record ThrottlerRecord : Type 0 where
  pub total_hits : ℕ
  pub time_to_expire : ℕ
  pub is_blocked : Bool
  pub time_to_block_expire : ℕ

unfoldable pub to_record : ℕ → RateLimitHit → ThrottlerRecord
unfolding seconds_up
to_record limit h = record {
  total_hits = h.total_hits;
  time_to_expire = seconds_up h.time_to_expire_ms;
  is_blocked = ltb limit h.total_hits;
  time_to_block_expire = seconds_up h.time_to_expire_ms;
}

-- `increment` over any store: `hit` is the port's operation, with the store's state.
unfoldable pub increment :
    {S : Type 0} → (Text → ℕ → S → RateLimitHit × S) → Text → ℕ → ℕ → Text → S → ThrottlerRecord × S
unfolding to_record
increment hit key ttl limit throttler_name s =
    let (h, s') = hit (throttler_name ++ str ":" ++ key) ttl s in (to_record limit h, s')
