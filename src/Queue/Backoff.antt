-- ===== src/Queue/Backoff.antt =====
-- `calculateBackoff` of internal/queue/processor.go. An `int` and a `time.Duration` have 64 bits:
-- each is a bit pattern below 2 ^ 64, read as negative from 2 ^ 63 on.
pub mod Bounds
mod Tests
use sendry.Base.{ℕ, ◌+◌, ◌-◌, ◌*◌, ◌%◌, ◌^◌, Bool, ltb, if◌then◌else◌}
use sendry.Ratelimit.{hour}

abbrev pub word : ℕ
word = 2 ^ 64

-- The order of signed words: adding 2 ^ 63 turns it into that of unsigned ones.
abbrev pub signed_ltb : ℕ → ℕ → Bool
signed_ltb a b = ltb ((a + 2 ^ 63) % word) ((b + 2 ^ 63) % word)

-- 1 << k: 0 from 64 on.
unfoldable pub shift_one : ℕ → ℕ
shift_one k = 2 ^ k % word

unfoldable pub calculate_backoff : ℕ → ℕ → ℕ
calculate_backoff retry_interval retry_count =
    let multiplier = shift_one (retry_count - 1) in
    let capped = if signed_ltb 12 multiplier then 12 else multiplier in
    let backoff = capped * retry_interval % word in
    if signed_ltb hour backoff then hour else backoff

-- now.Add(d) for a signed duration.
unfoldable pub add_duration : ℕ → ℕ → ℕ
add_duration now d = if ltb d (2 ^ 63) then now + d else now - (word - d)
