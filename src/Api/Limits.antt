-- ===== src/Api/Limits.antt =====
-- The RateLimiter of internal/web/middleware/middleware.go: its map of counters. The counters are
-- shared pointers in the program, so that a request that is denied also leaves its resets behind.
use sendry.Base.{
  ℕ, ◌+◌, Bool, true, false, ◌&&◌, ◌||◌, none, some, [], ◌∷◌, Text, ltb, leb, if◌then◌else◌, Dict,
  lookup, insert,
}

pub record KeyCounter : Type 0 where
  pub minute_count : ℕ
  pub hour_count : ℕ
  pub minute_reset : ℕ
  pub hour_reset : ℕ

abbrev pub minute : ℕ
minute = 60_000_000_000

abbrev pub hour : ℕ
hour = 3_600_000_000_000

unfoldable pub counter_of : Text → ℕ → Dict KeyCounter → KeyCounter
counter_of key now m = elim (lookup key m) [
  | some c ↦ c
  | none ↦ record {
    minute_count = 0;
    hour_count = 0;
    minute_reset = now + minute;
    hour_reset = now + hour;
  }
]

unfoldable pub reset_minute : ℕ → KeyCounter → KeyCounter
reset_minute now c =
    if ltb c.minute_reset now then record c { minute_count = 0; minute_reset = now + minute } else c

unfoldable pub reset_hours : ℕ → KeyCounter → KeyCounter
reset_hours now c =
    if ltb c.hour_reset now then record c { hour_count = 0; hour_reset = now + hour } else c

unfoldable pub exceeds : ℕ → ℕ → Bool
exceeds limit n = ltb 0 limit && leb limit n

unfoldable pub allow_key : Text → ℕ → ℕ → ℕ → Dict KeyCounter → Bool × Dict KeyCounter
allow_key key limit_minute limit_hour now m =
    let c = reset_hours now (reset_minute now (counter_of key now m)) in
    if exceeds limit_minute c.minute_count || exceeds limit_hour c.hour_count
    then (false, insert key c m)
    else (
      true,
      insert key (record c { minute_count = c.minute_count + 1; hour_count = c.hour_count + 1 }) m,
    )

-- A counter goes when both its windows are over.
unfoldable pub cleanup_keys : ℕ → Dict KeyCounter → Dict KeyCounter
cleanup_keys now [] = []
cleanup_keys now ((k, c) ∷ m) =
    let rest = cleanup_keys now m in
    if ltb c.minute_reset now && ltb c.hour_reset now then rest else (k, c) ∷ rest
