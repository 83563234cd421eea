-- ===== src/Cache/Store/Runs.antt =====
-- A cached service over any sequence of requests, with the entries in Redis as its state. Any command
-- may fail, a failed write may still have landed, and an entry may be gone at any time.
use advanced_search_api.Base.{ℕ, Text, Option, none, some, Bool, List, [], ◌∷◌, if◌then◌else◌}
use advanced_search_api.Base.Dict.{Dict, get, put, remove}
use advanced_search_api.Json.{Json}
use advanced_search_api.Shared.{Thrown, Result, ok, thrown, Ended}
use advanced_search_api.Cache.{World, Effects, CacheCall, cache_get, load, cache_set, cache_aside}
use advanced_search_api.Cache.Store.{
  RedisCommand, get_command, set_command, del_command, cache_get_reply, cache_set_command,
}

-- How one request goes: its key, a failure of the read or of the write as the client sees it, whether
-- the write reached the server, a load of the key in progress, and how a load of its own ends.
pub record Turn (E : Type 0) : Type 0 where
  pub key : Text
  pub read_failure : Option Thrown
  pub written : Result (Unit {0})
  pub lands : Bool
  pub in_progress : Option (Ended E Json)
  pub loaded : Ended E Json
  pub random : ℕ
  pub random_scale : ℕ

-- A request, or an entry that expires, is evicted or is deleted.
pub data Event (E : Type 0) : Type 0 where
  request : Turn E → Event E
  forgotten : Text → Event E

abbrev pub reply_of : Option Thrown → Option Text → Result (Option Text)
reply_of (some t) entry = thrown t
reply_of none entry = ok entry

-- The server's side of a command.
unfoldable pub perform : RedisCommand → Dict Text → Dict Text
perform (get_command k) store = store
perform (set_command k raw seconds) store = put k raw store
perform (del_command k) store = remove k store

unfoldable pub perform_calls : (Json → Text) → Bool → List (CacheCall Json) → Dict Text → Dict Text
unfolding perform cache_set_command
perform_calls stringify lands [] store = store
perform_calls stringify lands (cache_get k ∷ calls) store =
    perform_calls stringify lands calls store
perform_calls stringify lands (load ∷ calls) store = perform_calls stringify lands calls store
perform_calls stringify lands (cache_set k v seconds ∷ calls) store =
    perform_calls stringify lands calls
      (if lands then perform (cache_set_command stringify k v seconds) store else store)

abbrev pub no_effects : Effects Json
no_effects = record { hits = 0; misses = 0; log = []; calls = [] }

module _ (parse : Text → Result Json) (stringify : Json → Text) (schema : Json → Option Json)
    (ttl : ℕ) where
  abbrev pub world_of : {E : Type 0} → Turn E → Dict Text → World Json E Json
  world_of t store = record {
    read = cache_get_reply parse (reply_of t.read_failure (get t.key store));
    schema = schema;
    in_progress = t.in_progress;
    loaded = t.loaded;
    written = t.written;
    random = t.random;
    random_scale = t.random_scale;
  }

  unfoldable pub serve : {E : Type 0} → Turn E → Dict Text → Ended E Json × Dict Text
  unfolding cache_aside perform_calls
  serve t store =
      let (answer, effects) = cache_aside (world_of t store) t.key ttl no_effects in
      (answer, perform_calls stringify t.lands effects.calls store)

  -- The answers of a run, and the entries that it leaves.
  unfoldable pub run : {E : Type 0} → List (Event E) → Dict Text → List (Ended E Json) × Dict Text
  unfolding serve
  run [] store = ([], store)
  run (request t ∷ events) store =
      let (answer, store') = serve t store in
      let (answers, final) = run events store' in (answer ∷ answers, final)
  run (forgotten k ∷ events) store = run events (perform (del_command k) store)
