-- ===== src/RateLimit/Memory/Reference.antt =====
-- A fixed-window counter that never reclaims memory, as the specification of the in-memory store:
-- a function from keys to windows. The store, with its sweeping, answers as the counter does.
use advanced_search_api.Base.{
  ℕ, suc, ◌+◌, ◌-◌, ◌≤◌, Text, Option, none, some, Bool, ◌≡◌, refl, sym, ap, ◌∙◌, arith, List, [],
  ◌∷◌, if◌then◌else◌, text_eq, true, false,
}
use mathlib.Core.Path.{ap₂}
use advanced_search_api.Base.Int.{pos}
use advanced_search_api.Base.Dict.{get, put, get-put, Distinct}
use advanced_search_api.RateLimit.Memory.{
  RateLimitHit, Window, MemoryStore, Request, maybe_evict_expired, answer, hit, run, new_store,
}
use advanced_search_api.RateLimit.Memory.Sweep.{live, live-maybe_evict_expired, hit-Distinct}

abbrev pub Counter : Type 0
Counter = Text → Option Window

abbrev pub no_windows : Counter
no_windows _ = none

abbrev update : Text → Window → Counter → Counter
update k w f j = if text_eq k j then some w else f j

-- The window after a hit: a new one, or the live one counted up.
abbrev pub counted : ℕ → ℕ → Option Window → Window
counted window_ms now none = record { count = 1; expires_at = now + window_ms }
counted window_ms now (some w) = record { count = suc w.count; expires_at = w.expires_at }

abbrev pub report : ℕ → Window → RateLimitHit
report now w = record { total_hits = w.count; time_to_expire_ms = pos (w.expires_at - now) }

unfoldable pub counter_hit : Text → ℕ → ℕ → Counter → RateLimitHit × Counter
counter_hit key window_ms now f =
    let w = counted window_ms now (live now (f key)) in (report now w, update key w f)

unfoldable pub counter_run : List Request → Counter → List RateLimitHit
unfolding counter_hit
counter_run [] f = []
counter_run (r ∷ rs) f = let (h, f') = counter_hit r.key r.window_ms r.at f in h ∷ counter_run rs f'

-- The clock never goes back.
abbrev pub IsMonotone : ℕ → List Request → Type 0
IsMonotone now [] = Unit {0}
IsMonotone now (r ∷ rs) = (now ≤ r.at) × IsMonotone r.at rs

live-live :
    (now later : ℕ) (o : Option Window) → now ≤ later → live later (live now o) ≡ live later o
live-live now later none h = refl
live-live now later (some w) h = ground arith

record Agree (now : ℕ) (s : MemoryStore) (f : Counter) : Type 0 where
  distinct : Distinct s.windows
  same : (k : Text) → live now (get k s.windows) ≡ live now (f k)

Agree-later :
    {now later : ℕ} {s : MemoryStore} {f : Counter} → Agree now s f → now ≤ later → Agree later s f
Agree-later {now} {later} {s} {f} a h = record {
  distinct = a.distinct;
  same = λ k.
      sym (live-live now later (get k s.windows) h)
      ∙ ap (live later) (a.same k)
      ∙ live-live now later (f k) h;
}

answer-report :
    (key : Text) (window_ms now : ℕ) (s : MemoryStore) (o : Option Window)
    → (answer key window_ms now s o).0 ≡ report now (counted window_ms now (live now o))
answer-report key window_ms now s none = ground arith
answer-report key window_ms now s (some w) = ground arith

answer_windows :
    (key : Text) (window_ms now : ℕ) (s : MemoryStore) (o : Option Window)
    → (answer key window_ms now s o).1.windows
      ≡ put key (counted window_ms now (live now o)) s.windows
answer_windows key window_ms now s none = refl
answer_windows key window_ms now s (some w) = ground arith

live-update :
    (now : ℕ) (key k : Text) (w : Window) (s : MemoryStore) (f : Counter)
    → live now (get k s.windows) ≡ live now (f k)
    → live now (get k (put key w s.windows)) ≡ live now (update key w f k)
live-update now key k w s f e = rw (get-put key k w s.windows) (pick (text_eq key k))
  where
    pick :
        (b : Bool)
        → live now (if b then some w else get k s.windows) ≡ live now (if b then some w else f k)
    pick true = refl
    pick false = e

module _ (key : Text) (window_ms now : ℕ) (s : MemoryStore) (f : Counter) (a : Agree now s f) where
  same_swept : (k : Text) → live now (get k (maybe_evict_expired now s).windows) ≡ live now (f k)
  same_swept k = live-maybe_evict_expired now s k a.distinct ∙ a.same k

  hit_report : (hit key window_ms now s).0 ≡ (counter_hit key window_ms now f).0
  unfolding hit counter_hit
  hit_report =
      answer-report key window_ms now (maybe_evict_expired now s) _
      ∙ ap (λ o. report now (counted window_ms now o)) (same_swept key)

  hit_windows :
      (hit key window_ms now s).1.windows
      ≡ put key (counted window_ms now (live now (f key))) (maybe_evict_expired now s).windows
  unfolding hit
  hit_windows =
      answer_windows key window_ms now (maybe_evict_expired now s) _
      ∙ ap (λ o. put key (counted window_ms now o) (maybe_evict_expired now s).windows)
          (same_swept key)

  hit-Agree : Agree now (hit key window_ms now s).1 (counter_hit key window_ms now f).1
  unfolding counter_hit
  hit-Agree = record {
    distinct = hit-Distinct key window_ms now s a.distinct;
    same =
        λ k. rw hit_windows (live-update now key k _ (maybe_evict_expired now s) f (same_swept k));
  }

run_from-counter_run :
    (now : ℕ) (rs : List Request) (s : MemoryStore) (f : Counter)
    → Agree now s f
    → IsMonotone now rs
    → (run rs s).0 ≡ counter_run rs f
unfolding run counter_run
run_from-counter_run now [] s f a m = refl
run_from-counter_run now (r ∷ rs) s f a (h, m) =
    let later = Agree-later a h in
    ap₂ ◌∷◌ (hit_report r.key r.window_ms r.at s f later)
      (run_from-counter_run r.at rs _ _ (hit-Agree r.key r.window_ms r.at s f later) m)

new_store-Agree : (now : ℕ) → Agree now new_store no_windows
unfolding new_store get
new_store-Agree now = record { distinct = tt; same = λ k. refl }

-- Over any run of hits by a clock that does not go back, the store gives the answers of the
-- fixed-window counter that never sweeps.
pub run-counter_run :
    (rs : List Request) → IsMonotone 0 rs → (run rs new_store).0 ≡ counter_run rs no_windows
run-counter_run rs m = run_from-counter_run 0 rs new_store no_windows (new_store-Agree 0) m
