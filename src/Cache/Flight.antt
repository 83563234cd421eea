-- ===== src/Cache/Flight.antt =====
-- The map `inFlight` of src/application/caching/cache-aside.ts as an event loop sees it: callers
-- arrive and loads settle in any order.
pub mod Tracked
use advanced_search_api.Base.{
  ℕ, zero, suc, ◌+◌, Text, Option, none, some, List, [], ◌∷◌, ◌++◌, length, get_elem?, set,
}
use advanced_search_api.Base.Dict.{Dict, get, put, remove}
use advanced_search_api.Shared.{Result}

-- A promise made by `singleFlight`: the key, and the outcome once it has settled.
pub record Flight (T : Type 0) : Type 0 where
  pub key : Text
  pub outcome : Option (Result T)

-- Promises are numbered in the order in which they are made; `in_flight` maps a key to a number.
pub record Loads (T : Type 0) : Type 0 where
  pub promises : List (Flight T)
  pub in_flight : Dict ℕ

-- A caller reaches `singleFlight`, or the load behind a promise ends.
pub data Event (T : Type 0) : Type 0 where
  arrive : Text → Event T
  settle : ℕ → Result T → Event T

module _ {T : Type 0} where
  abbrev pub no_loads : Loads T
  no_loads = record { promises = []; in_flight = [] }

  abbrev join : Text → Loads T → Option ℕ → ℕ × Loads T
  join key s (some id) = (id, s)
  join key s none = (
    length s.promises,
    record {
      promises = s.promises ++ record { key = key; outcome = none } ∷ [];
      in_flight = put key (length s.promises) s.in_flight;
    },
  )

  -- `singleFlight`: the promise that the caller awaits.
  unfoldable pub start : Text → Loads T → ℕ × Loads T
  start key s = join key s (get key s.in_flight)

  abbrev finish_flight : ℕ → Result T → Loads T → Flight T → Option (Result T) → Loads T
  finish_flight id r s p (some _) = s
  finish_flight id r s p none = record {
    promises = set s.promises id (record { key = p.key; outcome = some r });
    in_flight = remove p.key s.in_flight;
  }

  abbrev finish_found : ℕ → Result T → Loads T → Option (Flight T) → Loads T
  finish_found id r s none = s
  finish_found id r s (some p) = finish_flight id r s p p.outcome

  -- `finally`: a load ends once, well or badly, and its key leaves the map.
  unfoldable pub finish : ℕ → Result T → Loads T → Loads T
  finish id r s = finish_found id r s (get_elem? s.promises id)

  unfoldable pub step : Event T → Loads T → Loads T
  unfolding start finish
  step (arrive key) s = (start key s).1
  step (settle id r) s = finish id r s

  unfoldable pub run : List (Event T) → Loads T → Loads T
  unfolding step
  run [] s = s
  run (e ∷ es) s = run es (step e s)
