-- ===== src/Ratelimit/Views.antt =====
-- The counter that the limiter sees under a key at a time, whatever the map holds.
use sendry.Base.{
  ℕ, ◌≡◌, Option, none, some, Text, text_eq, text_eq_iff, lookup, lookup-insert, Option-cases, inl,
  inr, arith, if◌then◌else◌,
}
use sendry.Ratelimit.{Counter, Counters, touch, get_or_create_counter, reset_expired_counters}

unfoldable pub view : ℕ → Option Counter → Counter
view now none = record { hourly_count = 0; daily_count = 0; hour_start = now; day_start = now }
view now (some c) = reset_expired_counters c now

reset_fresh : (now : ℕ) → reset_expired_counters (view now none) now ≡ view now none
unfolding view reset_expired_counters
reset_fresh now = ground arith

pub view-view : (now : ℕ) (o : Option Counter) → view now (some (view now o)) ≡ view now o
unfolding view reset_expired_counters
view-view now o = ground arith

pub touch-view : (k : Text) (now : ℕ) (m : Counters) → (touch k now m).0 ≡ view now (lookup k m)
unfolding touch view
touch-view k now m = ground (arith, reset_fresh now)

pub lookup-touch :
    (k j : Text) (now : ℕ) (m : Counters)
    → lookup j (touch k now m).1
      ≡ (if text_eq k j then some (view now (lookup k m)) else lookup j m)
unfolding touch view
lookup-touch k j now m = elim (Option-cases (lookup k m)) [
  | inl e ↦ rw (e, touch, get_or_create_counter, reset_fresh) (simp lookup-insert (ground arith))
  | inr (c, e) ↦ rw (e, touch, get_or_create_counter) (simp lookup-insert)
]

-- Touching one key changes what is seen under none.
pub view-touch :
    (k j : Text) (now : ℕ) (m : Counters)
    → view now (lookup j (touch k now m).1) ≡ view now (lookup j m)
view-touch k j now m =
    ground (arith, lookup-touch k j now m, text_eq_iff k j, view-view now (lookup k m))
