-- ===== src/Cache/Store.antt =====
-- src/infrastructure/redis/redis-cache.adapter.ts: the cache port over Redis. The commands' outcomes and
-- `JSON.parse` and `JSON.stringify` are arguments.
pub mod Runs
pub mod Sound
use advanced_search_api.Base.{ℕ, Text, Option, none, some, List, [], ◌∷◌}
use advanced_search_api.Json.{Json}
use advanced_search_api.Shared.{Thrown, Result, ok, thrown}

-- The commands of the client.
pub data RedisCommand : Type 0 where
  get_command : Text → RedisCommand
  -- With `EX` and the seconds.
  set_command : Text → Text → ℕ → RedisCommand
  del_command : Text → RedisCommand

abbrev read_back : Result Json → Result (Option Json)
read_back (thrown t) = thrown t
read_back (ok value) = ok (some value)

-- What `get` makes of the reply to its command: `JSON.parse` may throw too.
unfoldable pub cache_get_reply : (Text → Result Json) → Result (Option Text) → Result (Option Json)
cache_get_reply parse (thrown t) = thrown t
cache_get_reply parse (ok none) = ok none
cache_get_reply parse (ok (some raw)) = read_back (parse raw)

unfoldable pub cache_get_command : Text → RedisCommand
cache_get_command key = get_command key

unfoldable pub cache_set_command : (Json → Text) → Text → Json → ℕ → RedisCommand
cache_set_command stringify key value ttl_seconds = set_command key (stringify value) ttl_seconds

unfoldable pub cache_del_command : Text → RedisCommand
cache_del_command key = del_command key
