-- ===== src/Ratelimit/Bounds.antt =====
-- No counter of limiter.go passes its limit.
use sendry.Base.{
  ℕ, ◌≤◌, ◌<◌, ◌≡◌, refl, true, Option, none, some, List, [], ◌∷◌, Text, text_eq_iff, text_eq_refl,
  lookup, any, All, Option-cases, inl, inr, arith, if◌then◌else◌,
}
use sendry.Ratelimit.{
  Counter, Counters, Config, Request, LimitCheck, LimitConfig, Result, counted, allow_loop,
  over_limit, count_all, allow, allow_recipient, touch, recipient, make_key,
  get_recipient_domain_limit, check_for, finish_allow, get_checks, reset_expired_counters,
}
use sendry.Ratelimit.Keys.{
  covers, Distinct, get_checks-Distinct, Limited, limit_of, get_checks-Limited, check_for-Limited,
  level_limit,
}
use sendry.Ratelimit.Views.{view, touch-view, lookup-touch}
use sendry.Ratelimit.Counting.{
  verdict, first_denial, count_seen, count_all_lem, allow_loop-first_denial, allow_loop-Seen,
}

-- A count within a limit; a limit of 0 is none.
abbrev pub Fits : LimitConfig → Counter → Type 0
Fits lim c =
    (0 < lim.messages_per_hour → c.hourly_count ≤ lim.messages_per_hour)
    × (0 < lim.messages_per_day → c.daily_count ≤ lim.messages_per_day)

-- Every stored counter is within the limit that the configuration sets for its key.
abbrev pub Within : Config → Counters → Type 0
Within cfg m =
    (k : Text) (c : Counter) (lim : LimitConfig)
    → lookup k m ≡ some c
    → limit_of cfg k ≡ some lim
    → Fits lim c

view-Fits :
    (now : ℕ) (lim : LimitConfig) (o : Option Counter)
    → ((c : Counter) → o ≡ some c → Fits lim c)
    → Fits lim (view now o)
unfolding view reset_expired_counters
view-Fits now lim none h = (λ p. omega arith, λ p. omega arith)
view-Fits now lim (some c) h = let f = h c refl in ground (arith, f)

touch-Within :
    (cfg : Config) (k : Text) (now : ℕ) (m : Counters) → Within cfg m → Within cfg (touch k now m).1
touch-Within cfg k now m w j c lim e l =
    let f = view-Fits now lim (lookup j m) (λ v q. w j v lim q l) in
    ground (arith, f, lookup-touch k j now m, text_eq_iff k j, w j c lim)

allow_loop-Within :
    (cfg : Config) (now : ℕ) (cs : List LimitCheck) (m : Counters)
    → Within cfg m
    → Within cfg (allow_loop now cs m).1
unfolding allow_loop
allow_loop-Within cfg now [] m w = w
allow_loop-Within cfg now (c ∷ cs) m w =
    let w' = touch-Within cfg c.key now m w in
    let ih = allow_loop-Within cfg now cs (touch c.key now m).1 w' in
    λ k v lim e l. ground (arith, w' k v lim, ih k v lim)

-- Where no check denies, there is room for one more under each key.
no_denial-room :
    (cfg : Config) (now : ℕ) (cs : List LimitCheck) (m : Counters) (k : Text) (lim : LimitConfig)
    → first_denial now cs m ≡ none
    → All (Limited cfg) cs
    → covers cs k ≡ true
    → limit_of cfg k ≡ some lim
    → Fits lim (counted (view now (lookup k m)))
unfolding first_denial verdict over_limit covers any
no_denial-room cfg now [] m k lim f a h l = cc
no_denial-room cfg now (c ∷ cs) m k lim f a h l =
    ground (arith, text_eq_iff c.key k, no_denial-room cfg now cs m k lim, a.0, a.1)

counted-Within :
    (cfg : Config) (now : ℕ) (cs : List LimitCheck) (m n : Counters)
    → Within cfg m
    → All (Limited cfg) cs
    → (allow_loop now cs m).0 ≡ none
    → ((k : Text)
        → lookup k n ≡ (
            if covers cs k
            then count_seen (lookup k (allow_loop now cs m).1)
            else lookup k (allow_loop now cs m).1))
    → Within cfg n
counted-Within cfg now cs m n w a e r k c lim q l = ground (
  arith,
  r k,
  allow_loop-Seen now cs m k e,
  allow_loop-first_denial now cs m,
  no_denial-room cfg now cs m k lim,
  w k c lim,
  a,
)

finish-Within :
    (cfg : Config) (now : ℕ) (cs : List LimitCheck) (m n : Counters) (r : Result)
    → Distinct cs
    → All (Limited cfg) cs
    → Within cfg m
    → finish_allow cs (allow_loop now cs m) ≡ some (r, n)
    → Within cfg n
unfolding finish_allow
finish-Within cfg now cs m n r d a w q = elim (Option-cases (allow_loop now cs m).0) [
  | inl e ↦
      let m' = (allow_loop now cs m).1 in
      let (n', q', s) =
        count_all_lem cs m' d (λ k h. ground (arith, allow_loop-Seen now cs m k e)) in
      let same : n' ≡ n = ground (arith, e, q, q') in
      rw (← same) (counted-Within cfg now cs m n' w a e s)
  | inr (x, e) ↦
      let same : (allow_loop now cs m).1 ≡ n = ground (arith, e, q) in
      rw (← same) (allow_loop-Within cfg now cs m w)
]

-- Whatever the clock says, a call of Allow that started with every stored counter within the limit
-- of its key ends so.
pub allow-Within :
    (cfg : Config) (now : ℕ) (req : Request) (m n : Counters) (r : Result)
    → Within cfg m
    → allow cfg now req m ≡ some (r, n)
    → Within cfg n
unfolding allow
allow-Within cfg now req m n r =
    finish-Within cfg now (get_checks cfg req) m n r (get_checks-Distinct cfg req)
      (get_checks-Limited cfg req)

abbrev pub recipient_checks : Config → Text → List LimitCheck
recipient_checks cfg d = check_for recipient d true (get_recipient_domain_limit cfg d)

-- AllowRecipient is what Allow does on the one check of the recipient's domain.
pub allow_recipient-eq-allow :
    (cfg : Config) (now : ℕ) (d : Text) (m : Counters)
    → finish_allow (recipient_checks cfg d) (allow_loop now (recipient_checks cfg d) m)
      ≡ some (allow_recipient cfg now d m)
unfolding allow_recipient finish_allow allow_loop count_all check_for
allow_recipient-eq-allow cfg now d m = ground (
  arith,
  lookup-touch (make_key recipient d) (make_key recipient d) now m,
  touch-view (make_key recipient d) now m,
  text_eq_refl (make_key recipient d),
)

pub recipient_checks-Distinct : (cfg : Config) (d : Text) → Distinct (recipient_checks cfg d)
unfolding check_for covers any
recipient_checks-Distinct cfg d = ground arith

-- So does a call of AllowRecipient.
pub allow_recipient-Within :
    (cfg : Config) (now : ℕ) (d : Text) (m : Counters)
    → Within cfg m
    → Within cfg (allow_recipient cfg now d m).1
allow_recipient-Within cfg now d m w =
    finish-Within cfg now (recipient_checks cfg d) m (allow_recipient cfg now d m).1
      (allow_recipient cfg now d m).0 (recipient_checks-Distinct cfg d)
      (unfold level_limit make_key in check_for-Limited cfg recipient d true _ refl) w
      (allow_recipient-eq-allow cfg now d m)
