-- ===== src/RateLimit/Redis/Script.antt =====
-- The Lua script counts as the fixed-window counter does, given what Redis documents of its commands.
use advanced_search_api.Base.{
  ℕ, suc, ◌+◌, ◌-◌, ◌<◌, Text, Option, none, some, false, ◌≡◌, ◌∙◌, ap, arith, text_eq,
}
use mathlib.Core.Path.{ap₂}
use advanced_search_api.Base.Int.{ℤ, pos, negsuc}
use advanced_search_api.RateLimit.Memory.{Window}
use advanced_search_api.RateLimit.Memory.Reference.{counted, report}
use advanced_search_api.RateLimit.Redis.{Server, hit_script}

-- A counter key that Redis holds: its value and, if one was set, the time at which it expires.
pub record Entry : Type 0 where
  pub value : ℕ
  pub expires : Option ℕ

abbrev pub bumped : Option Entry → Entry
bumped none = record { value = 1; expires = none }
bumped (some e) = record e { value = suc e.value }

abbrev pub left : ℕ → Option Entry → ℤ
left now none = negsuc 1
left now (some e) = elim e.expires [ none ↦ negsuc 0 | some t ↦ pos (t - now) ]

-- The documented behaviour: what a key holds is absent once it has expired; INCR counts from 0 and
-- leaves an expiry alone; PEXPIRE sets one; PTTL answers the rest, -1 without expiry, -2 without key.
pub record Documented {S : Type 0} (server : Server S) : Type 0 where
  pub now : S → ℕ
  pub entry : Text → S → Option Entry
  pub incr_reply : (k : Text) (s : S) → (server.incr k s).0 ≡ (bumped (entry k s)).value
  pub incr_same : (k : Text) (s : S) → entry k (server.incr k s).1 ≡ some (bumped (entry k s))
  pub incr_other :
      (k j : Text) (s : S) → text_eq k j ≡ false → entry j (server.incr k s).1 ≡ entry j s
  pub incr_now : (k : Text) (s : S) → now (server.incr k s).1 ≡ now s
  pub pexpire_same :
      (k : Text) (ms : ℕ) (s : S) (e : Entry)
      → entry k s ≡ some e
      → entry k (server.pexpire k ms s) ≡ some (record e { expires = some (now s + ms) })
  pub pexpire_other :
      (k j : Text) (ms : ℕ) (s : S)
      → text_eq k j ≡ false
      → entry j (server.pexpire k ms s) ≡ entry j s
  pub pttl_reply : (k : Text) (s : S) → server.pttl k s ≡ left (now s) (entry k s)

module _ {S : Type 0} (server : Server S) (redis : Documented server) where
  open redis use {
    now, entry, incr_reply, incr_same, incr_other, incr_now, pexpire_same, pexpire_other,
    pttl_reply,
  }

  -- Redis holds the counter's live window under the key: the same count, the same expiry.
  abbrev pub Holds : Option Window → Text → S → Type 0
  Holds none k s = entry k s ≡ none
  Holds (some w) k s =
      (entry k s ≡ some (record { value = w.count; expires = some w.expires_at })) × (0 < w.count)

  module _ (k : Text) (window_ms : ℕ) (s : S) where
    opened :
        entry k s ≡ none
        → hit_script server k window_ms s
          ≡ ((1, pos window_ms), server.pexpire k window_ms (server.incr k s).1)
    unfolding hit_script
    opened h = let first = incr_reply k s ∙ ap (λ e. (bumped e).value) h in ground arith

    repeated :
        (e : Entry)
        → entry k s ≡ some e
        → 0 < e.value
        → hit_script server k window_ms s
          ≡ ((suc e.value, left (now s) (some e)), (server.incr k s).1)
    unfolding hit_script
    repeated e h positive =
        let total = incr_reply k s ∙ ap (λ e. (bumped e).value) h in
        let kept = incr_same k s ∙ ap (λ e. some (bumped e)) h in
        let rest = pttl_reply k (server.incr k s).1 ∙ ap₂ left (incr_now k s) kept in ground arith

    -- Another key is as it was.
    pub hit_script_other :
        (j : Text) → text_eq k j ≡ false → entry j (hit_script server k window_ms s).1 ≡ entry j s
    unfolding hit_script
    hit_script_other j n =
        ground (arith, incr_other k j s n, pexpire_other k j window_ms (server.incr k s).1 n)

  -- If Redis holds the live window of a key, or no key where there is none, one run of the script
  -- answers as the fixed-window counter does, and leaves Redis with the counter's next window: its
  -- count and its expiry together, so no key stays without one.
  pub hit_script-Holds :
      (w : Option Window) (k : Text) (window_ms : ℕ) (s : S)
      → Holds w k s
      → ((hit_script server k window_ms s).0 ≡ (
        (counted window_ms (now s) w).count,
        (report (now s) (counted window_ms (now s) w)).time_to_expire_ms,
      ))
        × Holds (some (counted window_ms (now s) w)) k (hit_script server k window_ms s).1
  hit_script-Holds none k window_ms s h =
      let e = opened k window_ms s h in
      let fresh = incr_same k s ∙ ap (λ e. some (bumped e)) h in
      let closed = pexpire_same k window_ms (server.incr k s).1 _ fresh in
      let clock = incr_now k s in
      (
        ap (λ (r : (ℕ × ℤ) × S). r.0) e ∙ ground arith,
        (ap (λ (r : (ℕ × ℤ) × S). entry k r.1) e ∙ closed ∙ ground arith, omega arith),
      )
  hit_script-Holds (some w) k window_ms s (h, c) =
      let e = repeated k window_ms s _ h c in
      (
        ap (λ (r : (ℕ × ℤ) × S). r.0) e ∙ ground arith,
        (
          ap (λ (r : (ℕ × ℤ) × S). entry k r.1) e ∙ incr_same k s ∙ ap (λ e. some (bumped e)) h,
          omega arith,
        ),
      )
