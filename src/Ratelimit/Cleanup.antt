-- ===== src/Ratelimit/Cleanup.antt =====
-- `cleanupExpiredCounters` of limiter.go.
use sendry.Base.{
  ℕ, ◌+◌, ◌≡◌, ◌≤◌, refl, true, ◌&&◌, ltb, none, some, [], ◌∷◌, Text, text_eq_iff, lookup, OneEach,
  arith, Bool-cases, inl, inr,
}
use sendry.Ratelimit.{Counter, Counters, day, cleanup_expired_counters, reset_expired_counters}
use sendry.Ratelimit.Views.{view}
use sendry.Ratelimit.Counting.{SameViews}

pub lookup-cleanup_none :
    (now : ℕ) (k : Text) (m : Counters)
    → lookup k m ≡ none
    → lookup k (cleanup_expired_counters now m) ≡ none
unfolding cleanup_expired_counters lookup
lookup-cleanup_none now k [] h = refl
lookup-cleanup_none now k ((j, c) ∷ m) h = ground (arith, lookup-cleanup_none now k m)

-- A counter that the cleanup drops is seen as a new one from then on.
view-dropped :
    (now later : ℕ) (c : Counter)
    → now ≤ later
    → (ltb (c.hour_start + day) now && ltb (c.day_start + day) now) ≡ true
    → view later (some c) ≡ view later none
unfolding view reset_expired_counters
view-dropped now later c h d = ground (arith, d)

-- On a map with one entry for each key, the cleanup changes nothing that the limiter sees at its own
-- time or at any later one: no count of a window that still runs is lost, no window starts at another
-- time, and every later request is judged as without it.
pub cleanup-SameViews :
    (now later : ℕ) (m : Counters)
    → now ≤ later
    → OneEach m
    → SameViews later (cleanup_expired_counters now m) m
unfolding cleanup_expired_counters lookup
cleanup-SameViews now later [] h o k = refl
cleanup-SameViews now later ((j, c) ∷ m) h o k =
    let rest = cleanup-SameViews now later m h o.1 k in
    elim (Bool-cases (ltb (c.hour_start + day) now && ltb (c.day_start + day) now)) [
      | inl old ↦ ground (
        arith,
        old,
        rest,
        lookup-cleanup_none now j m o.0,
        text_eq_iff j k,
        o.0,
        view-dropped now later c h old,
      )
      | inr young ↦ ground (arith, young, rest)
    ]
