-- ===== src/Cache.antt =====
-- src/application/caching/cache-aside.ts: the cache in front of the search engine. `Flight` models
-- the map of loads in progress; here one call of `cacheAside` runs against the outcomes that its
-- cache, its loader and a load in progress give it.
pub mod Flight
pub mod FailOpen
pub mod Store
pub mod Jitter
use advanced_search_api.Base.{
  ℕ, zero, suc, ◌+◌, ◌*◌, ◌/◌, max, Text, str, Option, none, some, List, [], ◌∷◌, ◌++◌,
}
use advanced_search_api.Shared.{
  Thrown, error_message, LogLine, warn, Result, ok, thrown, Ended, returned, raised,
}

-- `withJitter`: `Math.random()` is `r / d`, and the arithmetic is exact.
unfoldable pub with_jitter : ℕ → ℕ → ℕ → ℕ
with_jitter r d zero = zero
with_jitter r d (suc n) =
    let ttl = suc n in max 1 ((2 * (ttl * (9 * d + 2 * r)) + 10 * d) / (20 * d))

-- The calls that leave the process; `cache_set` has the key, the value and its lifetime.
pub data CacheCall (T : Type 0) : Type 0 where
  cache_get : Text → CacheCall T
  load : CacheCall T
  cache_set : Text → T → ℕ → CacheCall T

pub record Effects (T : Type 0) : Type 0 where
  pub hits : ℕ
  pub misses : ℕ
  pub log : List LogLine
  pub calls : List (CacheCall T)

-- What one call meets: how reading and writing the cache end, the schema, how loading ends, and, if a
-- load of the same key is in progress, how that one ends.
pub record World (Raw E T : Type 0) : Type 0 where
  pub read : Result (Option Raw)
  pub schema : Raw → Option T
  pub in_progress : Option (Ended E T)
  pub loaded : Ended E T
  pub written : Result (Unit {0})
  pub random : ℕ
  pub random_scale : ℕ

module _ {T : Type 0} where
  abbrev pub note : LogLine → Effects T → Effects T
  note line e = record e { log = e.log ++ line ∷ [] }

  abbrev pub called : CacheCall T → Effects T → Effects T
  called c e = record e { calls = e.calls ++ c ∷ [] }

  unfoldable pub write_outcome : Text → Result (Unit {0}) → Effects T → Effects T
  unfolding error_message
  write_outcome key (ok _) e = e
  write_outcome key (thrown t) e =
      note (warn (str "Cache write failed (" ++ key ++ str "): " ++ error_message t)) e

  abbrev parsed : Text → Option T → Effects T → Option T × Effects T
  parsed key none e =
      (none, note (warn (str "Cache payload rejected (" ++ key ++ str "): shape does not match")) e)
  parsed key (some v) e = (some v, e)

module _ {E T : Type 0} where
  -- `singleFlight`: join the load in progress, or run this call's own.
  unfoldable pub single_flight :
      Option (Ended E T) → (Effects T → Ended E T × Effects T) → Effects T → Ended E T × Effects T
  single_flight (some outcome) run e = (outcome, e)
  single_flight none run e = run e

module _ {Raw E T : Type 0} where
  abbrev raw_value : World Raw E T → Text → Result (Option Raw) → Effects T → Option T × Effects T
  raw_value w key (thrown t) e =
      (none, note (warn (str "Cache read failed (" ++ key ++ str "): " ++ error_message t)) e)
  raw_value w key (ok none) e = (none, e)
  raw_value w key (ok (some raw)) e = parsed key (w.schema raw) e

  unfoldable pub read_through : World Raw E T → Text → Effects T → Option T × Effects T
  unfolding error_message
  read_through w key e = raw_value w key w.read (called (cache_get key) e)

  unfoldable pub write_through : World Raw E T → Text → T → ℕ → Effects T → Effects T
  unfolding write_outcome with_jitter
  write_through w key v ttl e =
      write_outcome key w.written
        (called (cache_set key v (with_jitter w.random w.random_scale ttl)) e)

  abbrev store_loaded : World Raw E T → Text → ℕ → Ended E T → Effects T → Ended E T × Effects T
  store_loaded w key ttl (returned v) e = (returned v, write_through w key v ttl e)
  store_loaded w key ttl (raised t) e = (raised t, e)

  unfoldable pub load_only : World Raw E T → Effects T → Ended E T × Effects T
  load_only w e = (w.loaded, called load e)

  unfoldable pub load_and_store : World Raw E T → Text → ℕ → Effects T → Ended E T × Effects T
  unfolding write_through
  load_and_store w key ttl e = store_loaded w key ttl w.loaded (called load e)

  abbrev after_read : World Raw E T → Text → ℕ → Option T × Effects T → Ended E T × Effects T
  after_read w key ttl (some v, e) = (returned v, record e { hits = e.hits + 1 })
  after_read w key ttl (none, e) =
      single_flight w.in_progress (load_and_store w key ttl) (record e { misses = e.misses + 1 })

  unfoldable pub cache_aside : World Raw E T → Text → ℕ → Effects T → Ended E T × Effects T
  unfolding read_through single_flight load_only load_and_store
  cache_aside w key zero e =
      single_flight w.in_progress (load_only w) (record e { misses = e.misses + 1 })
  cache_aside w key (suc ttl) e = after_read w key (suc ttl) (read_through w key e)
