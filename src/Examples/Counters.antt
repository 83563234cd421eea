-- ===== src/Examples/Counters.antt =====
-- Runs of the request counters.
use advanced_search_api.Base.{
  ℕ, ◌+◌, ◌*◌, ◌≤◌, ◌<◌, Text, str, Option, none, some, false, ◌≡◌, ◌↔◌, refl, List, [], ◌∷◌, arith,
  text_eq, text_eq_refl, if◌then◌else◌, length,
}
use advanced_search_api.Base.Int.{pos}
use advanced_search_api.Base.Dict.{get}
use advanced_search_api.Shared.{error_object, Result, ok, thrown}
use advanced_search_api.RateLimit.Memory.{RateLimitHit, Window, new_store, Request, hit, run}
use advanced_search_api.RateLimit.Memory.Reference.{no_windows, counter_run, run-counter_run}
use advanced_search_api.RateLimit.Memory.Counting.{count_key, window-total}
use advanced_search_api.RateLimit.Redis.{Server, hit_script}
use advanced_search_api.RateLimit.Redis.Script.{
  Entry, bumped, left, Documented, Holds, hit_script-Holds,
}
use advanced_search_api.RateLimit.Failover.{FailoverStore, failover_run}
use advanced_search_api.RateLimit.Failover.Outage.{failover_run_away}
use advanced_search_api.RateLimit.Throttler.{increment}
use advanced_search_api.RateLimit.Throttler.Budget.{budget_of_window}

abbrev at_1s : Request
at_1s = record { key = str "default:a"; window_ms = 1000; at = 1000 }

abbrev at_1s5 : Request
at_1s5 = record { key = str "default:a"; window_ms = 1000; at = 1500 }

abbrev at_2s : Request
at_2s = record { key = str "default:a"; window_ms = 1000; at = 2000 }

abbrev three : List Request
three = at_1s ∷ at_1s5 ∷ at_2s ∷ []

-- The third request meets a window that has ended.
counts :
    counter_run three no_windows
    ≡ record { total_hits = 1; time_to_expire_ms = pos 1000 }
      ∷ record { total_hits = 2; time_to_expire_ms = pos 500 }
      ∷ record { total_hits = 1; time_to_expire_ms = pos 1000 }
      ∷ []
unfolding counter_run text_eq
counts = refl

run-counter_run_example : (run three new_store).0 ≡ counter_run three no_windows
run-counter_run_example = run-counter_run three (omega arith, (omega arith, (omega arith, tt)))

window-total_example :
    (hit (str "default:a") 1000 1500 (run (at_1s ∷ at_1s5 ∷ []) new_store).1).0
    ≡ record { total_hits = 3; time_to_expire_ms = pos 500 }
unfolding new_store get count_key text_eq
window-total_example =
    window-total at_1s (at_1s5 ∷ []) at_1s5 new_store tt refl refl (omega arith, tt) (omega arith)

budget_of_window_example :
    (let told =
        (increment
          (λ k w. hit k w 1500)
          (str "a")
          1000
          2
          (str "default")
          (run (at_1s ∷ at_1s5 ∷ []) new_store).1).0 in
      ((told.is_blocked ≡ false) ↔ (3 ≤ 2))
      × (2000 ≤ 1500 + told.time_to_block_expire * 1000)
      × (1500 + told.time_to_block_expire * 1000 < 3000))
unfolding new_store get count_key text_eq
budget_of_window_example =
    budget_of_window 2 1000 1500 (str "default") (str "a") at_1s (at_1s5 ∷ []) new_store tt refl
      refl (omega arith, tt) (omega arith)

abbrev expiring : ℕ → Option Entry → Option Entry
expiring t none = none
expiring t (some e) = some (record e { expires = some t })

-- A server that holds one key's entry at the time 5, and is always there.
abbrev tiny : Server (Text → Option Entry)
tiny = record {
  incr = λ k s. ((bumped (s k)).value, λ j. if text_eq k j then some (bumped (s k)) else s j);
  pexpire = λ k ms s. λ j. if text_eq k j then expiring (5 + ms) (s k) else s j;
  pttl = λ k s. left 5 (s k);
  evaluate = λ script s. (ok (script s).0, (script s).1);
}

abbrev tiny_documented : Documented tiny
tiny_documented = record {
  now = λ s. 5;
  entry = λ k s. s k;
  incr_reply = λ k s. refl;
  incr_same = λ k s. rw (text_eq_refl k);
  incr_other = λ k j s n. rw n;
  incr_now = λ k s. refl;
  pexpire_same = λ k ms s e h. rw (text_eq_refl k, h);
  pexpire_other = λ k j ms s n. rw n;
  pttl_reply = λ k s. refl;
}

-- The key has been counted twice and expires at 9.
abbrev held : Text → Option Entry
held _ = some (record { value = 2; expires = some 9 })

abbrev held_window : Window
held_window = record { count = 2; expires_at = 9 }

hit_script-Holds_example :
    ((hit_script tiny (str "a") 1000 held).0 ≡ (3, pos 4))
    × Holds tiny tiny_documented
        (some (record { count = 3; expires_at = 9 }))
        (str "a")
        (hit_script tiny (str "a") 1000 held).1
hit_script-Holds_example =
    hit_script-Holds tiny tiny_documented (some held_window) (str "a") 1000 held (refl, omega arith)

-- A server that cannot be reached.
abbrev nobody : Text → ℕ → Unit {0} → Result RateLimitHit × Unit {0}
nobody _ _ u = (thrown (error_object (str "ECONNREFUSED")), u)

abbrev fresh : FailoverStore (Unit {0})
fresh = record { degraded = false; redis = tt; memory = new_store; failovers = 0; log = [] }

failover_run_away_example :
    ((failover_run nobody three fresh).0 ≡ (run three new_store).0)
    × ((failover_run nobody three fresh).1.memory ≡ (run three new_store).1)
    × ((failover_run nobody three fresh).1.failovers ≡ 0 + length three)
failover_run_away_example =
    failover_run_away nobody (λ k w s. (error_object (str "ECONNREFUSED"), s, refl)) three fresh
