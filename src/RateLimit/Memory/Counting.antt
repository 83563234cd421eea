-- ===== src/RateLimit/Memory/Counting.antt =====
-- What the in-memory store counts within one window of a key, whatever other keys are hit meanwhile.
use advanced_search_api.Base.{
  refl, ℕ, suc, ◌+◌, ◌-◌, ◌<◌, Text, Option, none, some, ◌≡◌, ◌∙◌, ap, arith, List, [], ◌∷◌,
  if◌then◌else◌, text_eq, text_eq_iff, text_eq_refl, All, false, Bool-cases, inl, inr,
}
use advanced_search_api.Base.Int.{pos}
use advanced_search_api.Base.Dict.{get, get-put, Distinct}
use advanced_search_api.RateLimit.Memory.{
  Window, MemoryStore, Request, maybe_evict_expired, answer, hit, run,
}
use advanced_search_api.RateLimit.Memory.Sweep.{
  live, get-evict, live-maybe_evict_expired, hit-Distinct,
}

-- How many requests are for the key.
unfoldable pub count_key : Text → List Request → ℕ
count_key k [] = 0
count_key k (r ∷ rs) = let n = count_key k rs in if text_eq r.key k then suc n else n

abbrev extended : Text → Request → Window → Window
extended k r w =
    if text_eq r.key k then record { count = w.count + 1; expires_at = w.expires_at } else w

get-maybe_evict_expired :
    (now : ℕ) (k : Text) (s : MemoryStore) (w : Window)
    → Distinct s.windows
    → get k s.windows ≡ some w
    → now < w.expires_at
    → get k (maybe_evict_expired now s).windows ≡ some w
unfolding maybe_evict_expired
get-maybe_evict_expired now k s w d e h = ground (arith, get-evict now k s.windows d)

get-answer_other :
    (key k : Text) (window_ms now : ℕ) (s : MemoryStore) (o : Option Window)
    → text_eq key k ≡ false
    → get k (answer key window_ms now s o).1.windows ≡ get k s.windows
get-answer_other key k window_ms now s none n = rw (get-put, n)
get-answer_other key k window_ms now s (some w) n = ground (
  arith,
  get-put key k (record { count = 1; expires_at = now + window_ms }) s.windows,
  get-put key k (record { count = w.count + 1; expires_at = w.expires_at }) s.windows,
)

-- A hit leaves the live window of any other key as it was.
pub hit_other :
    (key k : Text) (window_ms now : ℕ) (s : MemoryStore)
    → Distinct s.windows
    → text_eq key k ≡ false
    → live now (get k (hit key window_ms now s).1.windows) ≡ live now (get k s.windows)
unfolding hit
hit_other key k window_ms now s d n =
    ap (live now) (get-answer_other key k window_ms now (maybe_evict_expired now s) _ n)
    ∙ live-maybe_evict_expired now s k d

module _ (k : Text) (r : Request) (s : MemoryStore) (w : Window) (d : Distinct s.windows)
    (there : get k s.windows ≡ some w) (before : r.at < w.expires_at) where
  kept : get k (maybe_evict_expired r.at s).windows ≡ some w
  kept = get-maybe_evict_expired r.at k s w d there before

  pub get-hit_same :
      r.key ≡ k
      → get k (hit r.key r.window_ms r.at s).1.windows
        ≡ some (record { count = w.count + 1; expires_at = w.expires_at })
  unfolding hit
  get-hit_same e =
      rw (e, kept)
        (ground (
          arith,
          get-put k k (record { count = w.count + 1; expires_at = w.expires_at })
              (maybe_evict_expired r.at s).windows,
          text_eq_refl k,
        ))

  get-hit : get k (hit r.key r.window_ms r.at s).1.windows ≡ some (extended k r w)
  unfolding hit
  get-hit = elim (Bool-cases (text_eq r.key k)) [
    | inl same ↦ rw same (get-hit_same ((text_eq_iff r.key k).0 same))
    | inr other ↦
        rw other
          (get-answer_other r.key k r.window_ms r.at (maybe_evict_expired r.at s) _ other ∙ kept)
  ]

  pub hit_in_window :
      r.key ≡ k
      → (hit r.key r.window_ms r.at s).0
        ≡ record { total_hits = w.count + 1; time_to_expire_ms = pos (w.expires_at - r.at) }
  unfolding hit
  hit_in_window e = rw (e, kept) (ground arith)

get-run :
    (k : Text) (rs : List Request) (s : MemoryStore) (w : Window)
    → Distinct s.windows
    → get k s.windows ≡ some w
    → All (λ r. r.at < w.expires_at) rs
    → Distinct (run rs s).1.windows
      × (get k (run rs s).1.windows
          ≡ some (record { count = w.count + count_key k rs; expires_at = w.expires_at }))
unfolding run count_key
get-run k [] s w d e h = (d, e ∙ ground arith)
get-run k (r ∷ rs) s w d e (h, hs) = elim (Bool-cases (text_eq r.key k)) [
  | inl same ↦
      let (d', e') =
        get-run k rs (hit r.key r.window_ms r.at s).1
          (record { count = w.count + 1; expires_at = w.expires_at })
          (hit-Distinct r.key r.window_ms r.at s d)
          (get-hit_same k r s w d e h ((text_eq_iff r.key k).0 same)) hs in
      (d', e' ∙ ground arith)
  | inr other ↦
      let (d', e') =
        get-run k rs (hit r.key r.window_ms r.at s).1 w (hit-Distinct r.key r.window_ms r.at s d)
          (get-hit k r s w d e h ∙ rw other) hs in
      (d', e' ∙ ground arith)
]

answer_fresh :
    (k : Text) (window_ms now : ℕ) (s : MemoryStore) (o : Option Window)
    → live now o ≡ none
    → get k (answer k window_ms now s o).1.windows
      ≡ some (record { count = 1; expires_at = now + window_ms })
answer_fresh k window_ms now s none e = rw (get-put, text_eq_refl)
answer_fresh k window_ms now s (some w) e = ground (
  arith,
  text_eq_refl k,
  get-put k k (record { count = 1; expires_at = now + window_ms }) s.windows,
)

pub get-hit_fresh :
    (r : Request) (s : MemoryStore)
    → Distinct s.windows
    → live r.at (get r.key s.windows) ≡ none
    → get r.key (hit r.key r.window_ms r.at s).1.windows
      ≡ some (record { count = 1; expires_at = r.at + r.window_ms })
unfolding hit
get-hit_fresh r s d e =
    answer_fresh r.key r.window_ms r.at (maybe_evict_expired r.at s) _
      (live-maybe_evict_expired r.at s r.key d ∙ e)

first_answer :
    (k : Text) (window_ms now : ℕ) (s : MemoryStore) (o : Option Window)
    → live now o ≡ none
    → (answer k window_ms now s o).0 ≡ record { total_hits = 1; time_to_expire_ms = pos window_ms }
first_answer k window_ms now s none e = refl
first_answer k window_ms now s (some w) e = ground arith

pub hit_fresh :
    (r : Request) (s : MemoryStore)
    → Distinct s.windows
    → live r.at (get r.key s.windows) ≡ none
    → (hit r.key r.window_ms r.at s).0
      ≡ record { total_hits = 1; time_to_expire_ms = pos r.window_ms }
unfolding hit
hit_fresh r s d e =
    first_answer r.key r.window_ms r.at (maybe_evict_expired r.at s) _
      (live-maybe_evict_expired r.at s r.key d ∙ e)

-- In any store with distinct keys: once a request has opened a window of its key, each later
-- request for that key inside the window is answered by the number of requests for the key so
-- far, itself included, and by the time left of the window that the first one opened, whatever
-- requests for other keys and whatever sweeps lie between.
pub window-total :
    (first : Request) (rs : List Request) (last : Request) (s : MemoryStore)
    → Distinct s.windows
    → live first.at (get first.key s.windows) ≡ none
    → last.key ≡ first.key
    → All (λ r. r.at < first.at + first.window_ms) rs
    → last.at < first.at + first.window_ms
    → (hit last.key last.window_ms last.at (run (first ∷ rs) s).1).0 ≡ record {
      total_hits = count_key first.key rs + 2;
      time_to_expire_ms = pos (first.at + first.window_ms - last.at);
    }
unfolding run
window-total first rs last s d fresh same hs h =
    let (d, there) =
      get-run first.key rs (hit first.key first.window_ms first.at s).1
        (record { count = 1; expires_at = first.at + first.window_ms })
        (hit-Distinct first.key first.window_ms first.at s d) (get-hit_fresh first s d fresh) hs in
    hit_in_window first.key last _ _ d there h same ∙ ground arith
