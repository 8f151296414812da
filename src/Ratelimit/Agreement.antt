-- ===== src/Ratelimit/Agreement.antt =====
-- `Allow`, `AllowRecipient` and `Check` of limiter.go against one another.
use sendry.Base.{
  ℕ, ◌≡◌, refl, sym, ◌∙◌, Bool, true, false, ◌&&◌, Option, none, some, List, [], ◌∷◌, Text, lookup,
  Option-cases, inl, inr, arith,
}
use sendry.Ratelimit.{
  Counter, Counters, Config, Request, LimitCheck, Result, accepted, counted, allow_loop, over_limit,
  allow, check, check_loop, check_one, get_checks, reset_expired_counters,
}
use sendry.Ratelimit.Keys.{covers, get_checks-Distinct}
use sendry.Ratelimit.Views.{view, view-view}
use sendry.Ratelimit.Counting.{
  verdict, first_denial, count_all_lem, allow_loop-first_denial, allow_loop-SameViews,
  allow_loop-Seen,
}

abbrev pub or_accepted : Option Result → Result
or_accepted none = accepted
or_accepted (some r) = r

check_one-verdict :
    (now : ℕ) (c : LimitCheck) (m : Counters) (o : Option Counter)
    → lookup c.key m ≡ o
    → check_one now c o ≡ verdict now c m
unfolding check_one verdict view reset_expired_counters over_limit
check_one-verdict now c m none e = rw e (ground arith)
check_one-verdict now c m (some v) e = rw e (ground arith)

pub check_loop-first_denial :
    (now : ℕ) (cs : List LimitCheck) (m : Counters)
    → check_loop now cs m ≡ or_accepted (first_denial now cs m)
unfolding check_loop first_denial
check_loop-first_denial now [] m = refl
check_loop-first_denial now (c ∷ cs) m =
    ground
      (arith, check_one-verdict now c m (lookup c.key m) refl, check_loop-first_denial now cs m)

over_limit-denies :
    (c : LimitCheck) (h d : ℕ) (v : Counter) (now : ℕ) (r : Result)
    → over_limit c h d v now ≡ some r
    → r.allowed ≡ false
unfolding over_limit
over_limit-denies c h d v now r e = ground arith

first_denial-denies :
    (now : ℕ) (cs : List LimitCheck) (m : Counters) (r : Result)
    → first_denial now cs m ≡ some r
    → r.allowed ≡ false
unfolding first_denial verdict
first_denial-denies now [] m r e = cc
first_denial-denies now (c ∷ cs) m r e =
    let v = view now (lookup c.key m) in
    ground (
      arith,
      over_limit-denies c v.hourly_count v.daily_count v now r,
      first_denial-denies now cs m r,
    )

view-counted :
    (now : ℕ) (o : Option Counter) → view now (some (counted (view now o))) ≡ counted (view now o)
unfolding view reset_expired_counters
view-counted now o = ground arith

-- What a key shows after a request: one more if the request was accepted and counts under it.
abbrev pub counted_if : Bool → Counter → Counter
counted_if true c = counted c
counted_if false c = c

abbrev pub Counts : Config → ℕ → Request → Counters → Counters → Type 0
Counts cfg now req m n =
    (k : Text)
    → view now (lookup k n)
      ≡ counted_if ((check cfg now req m).allowed && covers (get_checks cfg req) k)
          (view now (lookup k m))

denied_case :
    (cfg : Config) (now : ℕ) (req : Request) (m : Counters) (r : Result)
    → (allow_loop now (get_checks cfg req) m).0 ≡ some r
    → (n : Counters) × (allow cfg now req m ≡ some (check cfg now req m, n))
      × Counts cfg now req m n
unfolding allow check
denied_case cfg now req m r e =
    let cs = get_checks cfg req in
    let f = sym (allow_loop-first_denial now cs m) ∙ e in
    (
      (allow_loop now cs m).1,
      ground (arith, e, f, check_loop-first_denial now cs m),
      λ k. ground (
        arith,
        f,
        check_loop-first_denial now cs m,
        first_denial-denies now cs m r f,
        allow_loop-SameViews now cs m k,
      ),
    )

accepted_case :
    (cfg : Config) (now : ℕ) (req : Request) (m : Counters)
    → (allow_loop now (get_checks cfg req) m).0 ≡ none
    → (n : Counters) × (allow cfg now req m ≡ some (check cfg now req m, n))
      × Counts cfg now req m n
unfolding allow check
accepted_case cfg now req m e =
    let cs = get_checks cfg req in
    let f = sym (allow_loop-first_denial now cs m) ∙ e in
    let m' = (allow_loop now cs m).1 in
    let (n, q, r) =
      count_all_lem cs m' (get_checks-Distinct cfg req)
        (λ k h. ground (arith, allow_loop-Seen now cs m k e)) in
    (
      n,
      ground (arith, e, f, q, check_loop-first_denial now cs m),
      λ k. ground (
        arith,
        f,
        check_loop-first_denial now cs m,
        r k,
        allow_loop-Seen now cs m k e,
        allow_loop-SameViews now cs m k,
        view-counted now (lookup k m),
        view-view now (lookup k m),
      ),
    )

-- Allow never meets a nil counter, its verdict is the one that Check gives on the same counters at
-- the same time, and afterwards every key shows one more message in both of its windows if the
-- request was allowed and one of its checks counts under that key, and shows what it showed before
-- otherwise; so a denied request is counted nowhere, and an allowed one once at each of its levels.
pub allow-eq-check :
    (cfg : Config) (now : ℕ) (req : Request) (m : Counters)
    → (n : Counters) × (allow cfg now req m ≡ some (check cfg now req m, n))
      × Counts cfg now req m n
allow-eq-check cfg now req m = elim (Option-cases (allow_loop now (get_checks cfg req) m).0) [
  | inl e ↦ accepted_case cfg now req m e
  | inr (r, e) ↦ denied_case cfg now req m r e
]
