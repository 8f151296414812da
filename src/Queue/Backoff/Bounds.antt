-- ===== src/Queue/Backoff/Bounds.antt =====
-- The delays that internal/queue/processor.go computes, and where the shift overflows.
use Prim.Native.Nat.{min}
use native.Mathlib.Nat.{pow-suc}
use sendry.Base.{
  ℕ, zero, suc, ◌+◌, ◌-◌, ◌*◌, ◌%◌, ◌^◌, ◌≤◌, ◌<◌, ◌≡◌, refl, true, Bool, ◌&&◌, ltb, ◌==◌,
  if◌then◌else◌, arith,
}
use sendry.Ratelimit.{hour}
use sendry.Queue.Backoff.{word, shift_one, calculate_backoff, add_duration, signed_ltb}

all_below : ℕ → (ℕ → Bool) → Bool
all_below zero p = true
all_below (suc n) p = p n && all_below n p

all_below-true : (n : ℕ) (p : ℕ → Bool) (x : ℕ) → all_below n p ≡ true → x < n → p x ≡ true
unfolding all_below
all_below-true zero p x h lt = absurd (omega arith)
all_below-true (suc n) p x h lt = ground (arith, all_below-true n p x)

shift_table : all_below 63 (λ k. shift_one k == 2 ^ k && ltb (2 ^ k) (2 ^ 63)) ≡ true
unfolding all_below shift_one
shift_table = refl

shift_exact : (k : ℕ) → k < 63 → (shift_one k ≡ 2 ^ k) × (2 ^ k < 2 ^ 63)
shift_exact k h =
    let t = all_below-true 63 (λ k. shift_one k == 2 ^ k && ltb (2 ^ k) (2 ^ 63)) k shift_table h in
    ground (arith, t)

cap_factor : (m : ℕ) → m < 2 ^ 63 → (if signed_ltb 12 m then 12 else m) ≡ min m 12
cap_factor m h = ground arith

cap_delay :
    (d : ℕ) → d < 2 ^ 63 → (if signed_ltb hour (d % word) then hour else d % word) ≡ min d hour
cap_delay d h = ground arith

times_bound : (c interval : ℕ) → c ≤ 12 → c * interval ≤ 12 * interval
times_bound c interval h = grind arith

-- While the count is at most 63, and 12 intervals do not overflow, the delay is the interval times
-- 2 ^ (retry_count - 1), with the factor cut off at 12 and the delay at one hour.
pub calculate_backoff-exact :
    (interval n : ℕ)
    → 0 < n
    → n ≤ 63
    → 12 * interval < 2 ^ 63
    → calculate_backoff interval n ≡ min (min (2 ^ (n - 1)) 12 * interval) hour
unfolding calculate_backoff
calculate_backoff-exact interval n p h b =
    let shift = shift_exact (n - 1) (omega arith) in
    let c = min (2 ^ (n - 1)) 12 in
    rw (shift.0, cap_factor (2 ^ (n - 1)) shift.1)
      (cap_delay (c * interval) (omega (arith, times_bound c interval (omega arith))))

power_split : (k : ℕ) → 2 ^ (k + 64) ≡ 2 ^ k * word
power_split zero = refl
power_split (suc k) =
    let e : suc k + 64 ≡ suc (k + 64) = omega arith in
    rw (e, pow-suc, pow-suc, power_split k) (omega arith)

shift_overflow : (k : ℕ) → 64 ≤ k → shift_one k ≡ 0
unfolding shift_one
shift_overflow k h =
    let e : k ≡ (k - 64) + 64 = omega arith in rw (e, power_split (k - 64)) (omega arith)

-- From the 65th failed attempt on, the shift has pushed its bit out, and the delay is nothing at
-- all, whatever the interval: the message is due again at once.
pub calculate_backoff-overflow :
    (interval n now : ℕ)
    → 65 ≤ n
    → (calculate_backoff interval n ≡ 0) × (add_duration now (calculate_backoff interval n) ≡ now)
unfolding calculate_backoff add_duration
calculate_backoff-overflow interval n now h =
    rw (shift_overflow (n - 1) (omega arith)) (ground arith)
