-- ===== src/Ratelimit/Retry.antt =====
-- The waiting time that `Check` and `Allow` of limiter.go report with a denial.
use sendry.Base.{
  ℕ, ◌+◌, ◌<◌, ◌≡◌, ◌⊎◌, inl, inr, false, some, List, [], ◌∷◌, lookup, Option-cases, arith,
}
use sendry.Ratelimit.{
  Counter, Counters, Config, Request, LimitCheck, Result, check, check_loop, check_one, over_limit,
  get_checks, hour, day,
}

-- The counter that denied, and the end of its window that was full.
abbrev pub Waits : ℕ → Counters → Result → Type 0
Waits now m r =
    (c : Counter) × (lookup r.denied_key m ≡ some c)
    × (0 < r.retry_after)
    × ((now + r.retry_after ≡ c.hour_start + hour) ⊎ (now + r.retry_after ≡ c.day_start + day))

check_one-Waits :
    (now : ℕ) (ch : LimitCheck) (m : Counters) (c : Counter) (r : Result)
    → lookup ch.key m ≡ some c
    → check_one now ch (some c) ≡ some r
    → Waits now m r
unfolding check_one over_limit
check_one-Waits now ch m c r e h = (c, ground arith, ground arith, ground arith)

check_one-denies :
    (now : ℕ) (ch : LimitCheck) (m : Counters) (r : Result)
    → check_one now ch (lookup ch.key m) ≡ some r
    → Waits now m r
unfolding check_one
check_one-denies now ch m r h = elim (Option-cases (lookup ch.key m)) [
  | inl e ↦ absurd (ground (arith, e))
  | inr (c, e) ↦ check_one-Waits now ch m c r e (ground (arith, e))
]

check_loop-Waits :
    (now : ℕ) (cs : List LimitCheck) (m : Counters)
    → (check_loop now cs m).allowed ≡ false
    → Waits now m (check_loop now cs m)
unfolding check_loop
check_loop-Waits now [] m h = cc
check_loop-Waits now (ch ∷ cs) m h = elim (Option-cases (check_one now ch (lookup ch.key m))) [
  | inl e ↦ rw (e, check_loop) (check_loop-Waits now cs m (ground (arith, e)))
  | inr (r, e) ↦ rw (e, check_loop) (check_one-denies now ch m r e)
]

-- A denial names a stored counter, and the wait that it reports is more than nothing and ends
-- exactly when the hour or the day of that counter is over.
pub check-Waits :
    (cfg : Config) (now : ℕ) (req : Request) (m : Counters)
    → (check cfg now req m).allowed ≡ false
    → Waits now m (check cfg now req m)
unfolding check
check-Waits cfg now req m = check_loop-Waits now (get_checks cfg req) m
