-- ===== src/Queue/Backoff/Tests.antt =====
-- The properties of the delays at concrete inputs.
use Prim.Native.Nat.{min}
use sendry.Base.{◌≡◌, ◌-◌, ◌*◌, ◌^◌, arith}
use sendry.Ratelimit.{hour}
use sendry.Queue.Backoff.{calculate_backoff, add_duration}
use sendry.Queue.Backoff.Bounds.{calculate_backoff-exact, calculate_backoff-overflow}

calculate_backoff-exact_example :
    calculate_backoff 300000000000 3 ≡ min (min (2 ^ (3 - 1)) 12 * 300000000000) hour
calculate_backoff-exact_example =
    calculate_backoff-exact 300000000000 3 (omega arith) (omega arith) (omega arith)

calculate_backoff-overflow_example :
    (calculate_backoff 300000000000 65 ≡ 0)
    × (add_duration 7 (calculate_backoff 300000000000 65) ≡ 7)
calculate_backoff-overflow_example = calculate_backoff-overflow 300000000000 65 7 (omega arith)
