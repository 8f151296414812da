-- ===== src/Ratelimit/History.antt =====
-- Any sequence of calls of limiter.go, each at its own time.
use sendry.Base.{
  OneEach, ℕ, ◌≡◌, refl, Option, none, some, List, [], ◌∷◌, Text, text_eq_iff, lookup, insert,
  lookup-insert, Option-cases, inl, inr, arith,
}
use sendry.Ratelimit.{
  Counter, Counters, Config, Request, LimitCheck, Result, allow, allow_loop, allow_recipient, check,
  count_all, counted, touch, get_or_create_counter, cleanup_expired_counters, finish_allow,
  get_checks,
}
use sendry.Ratelimit.Cleanup.{lookup-cleanup_none}
use sendry.Ratelimit.Bounds.{
  Within, allow-Within, allow_recipient-Within, allow_recipient-eq-allow, recipient_checks,
}
use sendry.Ratelimit.Agreement.{allow-eq-check}

insert-OneEach : (k : Text) (c : Counter) (m : Counters) → OneEach m → OneEach (insert k c m)
unfolding insert lookup
insert-OneEach k c [] o = (refl, tt)
insert-OneEach k c ((j, d) ∷ m) o =
    ground
      (arith, insert-OneEach k c m o.1, lookup-insert k j c m, text_eq_iff j k, text_eq_iff k j)

touch-OneEach : (k : Text) (now : ℕ) (m : Counters) → OneEach m → OneEach (touch k now m).1
unfolding touch
touch-OneEach k now m o = elim (Option-cases (lookup k m)) [
  | inl e ↦ rw (e, touch, get_or_create_counter) (insert-OneEach k _ _ (insert-OneEach k _ m o))
  | inr (c, e) ↦ rw (e, touch, get_or_create_counter) (insert-OneEach k _ m o)
]

allow_loop-OneEach :
    (now : ℕ) (cs : List LimitCheck) (m : Counters) → OneEach m → OneEach (allow_loop now cs m).1
unfolding allow_loop
allow_loop-OneEach now [] m o = o
allow_loop-OneEach now (c ∷ cs) m o =
    let o' = touch-OneEach c.key now m o in
    ground (arith, o', allow_loop-OneEach now cs (touch c.key now m).1 o')

count_all-OneEach :
    (cs : List LimitCheck) (m n : Counters) → OneEach m → count_all cs m ≡ some n → OneEach n
unfolding count_all
count_all-OneEach [] m n o q = ground (arith, o)
count_all-OneEach (c ∷ cs) m n o q = elim (Option-cases (lookup c.key m)) [
  | inl e ↦ ground arith
  | inr (v, e) ↦
      count_all-OneEach cs (insert c.key (counted v) m) n (insert-OneEach c.key (counted v) m o)
        (ground arith)
]

finish-OneEach :
    (now : ℕ) (cs : List LimitCheck) (m n : Counters) (r : Result)
    → OneEach m
    → finish_allow cs (allow_loop now cs m) ≡ some (r, n)
    → OneEach n
unfolding finish_allow
finish-OneEach now cs m n r o q =
    let o' = allow_loop-OneEach now cs m o in
    ground (arith, o', count_all-OneEach cs (allow_loop now cs m).1 n o')

lookup-cleanup :
    (now : ℕ) (k : Text) (c : Counter) (m : Counters)
    → OneEach m
    → lookup k (cleanup_expired_counters now m) ≡ some c
    → lookup k m ≡ some c
unfolding cleanup_expired_counters lookup
lookup-cleanup now k c [] o e = e
lookup-cleanup now k c ((j, d) ∷ m) o e =
    ground
      (arith, lookup-cleanup now k c m o.1, lookup-cleanup_none now j m o.0, text_eq_iff j k, o.0)

cleanup-OneEach : (now : ℕ) (m : Counters) → OneEach m → OneEach (cleanup_expired_counters now m)
unfolding cleanup_expired_counters
cleanup-OneEach now [] o = tt
cleanup-OneEach now ((j, d) ∷ m) o =
    ground (arith, cleanup-OneEach now m o.1, lookup-cleanup_none now j m o.0)

-- The calls that write to the counters.
pub data Call : Type 0 where
  allows : Request → Call
  allows_recipient : Text → Call
  cleans : Call

-- `none` is a panic.
pub step : Config → ℕ × Call → Counters → Option Counters
step cfg (now, allows req) m = elim (allow cfg now req m) [ none ↦ none | some (r, n) ↦ some n ]
step cfg (now, allows_recipient d) m = some (allow_recipient cfg now d m).1
step cfg (now, cleans) m = some (cleanup_expired_counters now m)

pub run : Config → List (ℕ × Call) → Counters → Option Counters
run cfg [] m = some m
run cfg (c ∷ cs) m = elim (step cfg c m) [ none ↦ none | some n ↦ run cfg cs n ]

abbrev Kept : Config → Option Counters → Type 0
Kept cfg o = (n : Counters) × (o ≡ some n) × OneEach n × Within cfg n

step-Kept :
    (cfg : Config) (c : ℕ × Call) (m : Counters)
    → OneEach m
    → Within cfg m
    → Kept cfg (step cfg c m)
unfolding step
step-Kept cfg (now, allows req) m o w =
    let (n, q, _) = allow-eq-check cfg now req m in
    (
      n,
      ground (arith, q),
      finish-OneEach now (get_checks cfg req) m n (check cfg now req m) o (unfold allow in q),
      allow-Within cfg now req m n (check cfg now req m) w q,
    )
step-Kept cfg (now, allows_recipient d) m o w = (
  (allow_recipient cfg now d m).1,
  refl,
  finish-OneEach now (recipient_checks cfg d) m _ (allow_recipient cfg now d m).0 o
      (allow_recipient-eq-allow cfg now d m),
  allow_recipient-Within cfg now d m w,
)
step-Kept cfg (now, cleans) m o w = (
  cleanup_expired_counters now m,
  refl,
  cleanup-OneEach now m o,
  λ k c lim e. w k c lim (lookup-cleanup now k c m o e),
)

run-Kept :
    (cfg : Config) (cs : List (ℕ × Call)) (m : Counters)
    → OneEach m
    → Within cfg m
    → Kept cfg (run cfg cs m)
unfolding run
run-Kept cfg [] m o w = (m, refl, o, w)
run-Kept cfg (c ∷ cs) m o w =
    let (n, q, o', w') = step-Kept cfg c m o w in
    let (n', q', o'', w'') = run-Kept cfg cs n o' w' in (n', rw (q, run) q', o'', w'')

-- From a limiter with no counters, any calls of Allow, AllowRecipient and the cleanup, at any times,
-- run without a nil counter, and leave one counter for each key with its counts within the
-- limits that the configuration sets for the key.
pub run-Within :
    (cfg : Config) (cs : List (ℕ × Call))
    → (n : Counters) × (run cfg cs [] ≡ some n) × OneEach n × Within cfg n
run-Within cfg cs = run-Kept cfg cs [] tt (λ k c lim e. unfold lookup in cc)
