-- ===== src/RateLimit/Memory/Sweep.antt =====
-- What sweeping the in-memory store does to its entries, and that its keys stay distinct.
use advanced_search_api.Base.{
  ℕ, Text, Option, none, some, ◌≡◌, refl, arith, [], ◌∷◌, if◌then◌else◌, text_eq, text_eq_iff,
  false, Bool-cases, leb, inl, inr,
}
use advanced_search_api.Base.Dict.{Dict, get, put, Absent, Distinct}
use advanced_search_api.RateLimit.Memory.{
  Window, MemoryStore, is_live, evict, maybe_evict_expired, answer, hit,
}

-- The window of a key, if it has not expired.
abbrev pub live : ℕ → Option Window → Option Window
live now none = none
live now (some w) = if is_live now w then some w else none

Absent-evict : (now : ℕ) (k : Text) (m : Dict Window) → Absent k m → Absent k (evict now m)
unfolding evict
Absent-evict now k [] a = tt
Absent-evict now k ((j, w) ∷ m) (e, a) = ground (arith, Absent-evict now k m a)

Distinct-evict : (now : ℕ) (m : Dict Window) → Distinct m → Distinct (evict now m)
unfolding evict
Distinct-evict now [] d = tt
Distinct-evict now ((j, w) ∷ m) (a, d) =
    ground (arith, Distinct-evict now m d, Absent-evict now j m a)

get_of_Absent : (k : Text) (m : Dict Window) → Absent k m → get k m ≡ none
unfolding get
get_of_Absent k [] a = refl
get_of_Absent k ((j, w) ∷ m) (e, a) = ground (arith, get_of_Absent k m a)

-- With distinct keys a sweep changes no live window.
pub get-evict :
    (now : ℕ) (k : Text) (m : Dict Window) → Distinct m → get k (evict now m) ≡ live now (get k m)
unfolding evict get
get-evict now k [] d = refl
get-evict now k ((j, w) ∷ m) (a, d) =
    ground (arith, get-evict now k m d, get_of_Absent j m a, text_eq_iff j k)

Absent-put :
    (k j : Text) (v : Window) (m : Dict Window)
    → text_eq k j ≡ false
    → Absent j m
    → Absent j (put k v m)
unfolding put
Absent-put k j v [] n a = (n, tt)
Absent-put k j v ((i, w) ∷ m) n (e, a) = ground (arith, Absent-put k j v m n a)

Distinct-put : (k : Text) (v : Window) (m : Dict Window) → Distinct m → Distinct (put k v m)
unfolding put
Distinct-put k v [] d = (tt, tt)
Distinct-put k v ((i, w) ∷ m) (a, d) =
    ground (arith, Distinct-put k v m d, Absent-put k i v m, text_eq_iff i k, text_eq_iff k i)

pub maybe_evict_expired-Distinct :
    (now : ℕ) (s : MemoryStore) → Distinct s.windows → Distinct (maybe_evict_expired now s).windows
unfolding maybe_evict_expired
maybe_evict_expired-Distinct now s d = ground (arith, Distinct-evict now s.windows d)

answer-Distinct :
    (key : Text) (window_ms now : ℕ) (s : MemoryStore) (o : Option Window)
    → Distinct s.windows
    → Distinct (answer key window_ms now s o).1.windows
answer-Distinct key window_ms now s none d = Distinct-put key _ s.windows d
answer-Distinct key window_ms now s (some w) d = elim (Bool-cases (leb w.expires_at now)) [
  | inl e ↦ rw e (Distinct-put key _ s.windows d)
  | inr e ↦ rw e (Distinct-put key _ s.windows d)
]

pub hit-Distinct :
    (key : Text) (window_ms now : ℕ) (s : MemoryStore)
    → Distinct s.windows
    → Distinct (hit key window_ms now s).1.windows
unfolding hit
hit-Distinct key window_ms now s d =
    answer-Distinct key window_ms now (maybe_evict_expired now s) _
      (maybe_evict_expired-Distinct now s d)

live_of_live : (now : ℕ) (o : Option Window) → live now (live now o) ≡ live now o
live_of_live now none = refl
live_of_live now (some w) = ground arith

pub live-maybe_evict_expired :
    (now : ℕ) (s : MemoryStore) (k : Text)
    → Distinct s.windows
    → live now (get k (maybe_evict_expired now s).windows) ≡ live now (get k s.windows)
unfolding maybe_evict_expired
live-maybe_evict_expired now s k d =
    ground (arith, get-evict now k s.windows d, live_of_live now (get k s.windows))
