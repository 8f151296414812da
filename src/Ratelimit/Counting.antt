-- ===== src/Ratelimit/Counting.antt =====
-- The two loops of `Allow` through what the limiter sees.
use sendry.Base.{
  ℕ, ◌≡◌, refl, ◌≢◌, true, Option, none, some, List, [], ◌∷◌, Text, text_eq_iff, text_eq_refl,
  lookup, insert, lookup-insert, any, Option-cases, inl, inr, arith, if◌then◌else◌,
}
use sendry.Ratelimit.{
  Counter, Counters, LimitCheck, Result, touch, allow_loop, over_limit, count_all, counted,
}
use sendry.Ratelimit.Keys.{covers, Distinct}
use sendry.Ratelimit.Views.{view, touch-view, view-touch, lookup-touch}

-- The verdict of one check on the counter that is seen under its key.
unfoldable pub verdict : ℕ → LimitCheck → Counters → Option Result
verdict now c m =
    let v = view now (lookup c.key m) in over_limit c v.hourly_count v.daily_count v now

unfoldable pub first_denial : ℕ → List LimitCheck → Counters → Option Result
first_denial now [] m = none
first_denial now (c ∷ cs) m = elim (verdict now c m) [
  | some r ↦ some r
  | none ↦ first_denial now cs m
]

-- Two maps in which the limiter sees the same.
abbrev pub SameViews : ℕ → Counters → Counters → Type 0
SameViews now m n = (k : Text) → view now (lookup k m) ≡ view now (lookup k n)

pub first_denial-SameViews :
    (now : ℕ) (cs : List LimitCheck) (m n : Counters)
    → SameViews now m n
    → first_denial now cs m ≡ first_denial now cs n
unfolding first_denial verdict
first_denial-SameViews now [] m n h = refl
first_denial-SameViews now (c ∷ cs) m n h =
    ground (arith, h c.key, first_denial-SameViews now cs m n h)

-- The first loop gives the verdict on what was seen before it ran.
pub allow_loop-first_denial :
    (now : ℕ) (cs : List LimitCheck) (m : Counters)
    → (allow_loop now cs m).0 ≡ first_denial now cs m
unfolding allow_loop first_denial verdict
allow_loop-first_denial now [] m = refl
allow_loop-first_denial now (c ∷ cs) m = ground (
  arith,
  touch-view c.key now m,
  allow_loop-first_denial now cs (touch c.key now m).1,
  first_denial-SameViews now cs (touch c.key now m).1 m (λ k. view-touch c.key k now m),
)

-- And changes nothing that is seen.
pub allow_loop-SameViews :
    (now : ℕ) (cs : List LimitCheck) (m : Counters) → SameViews now (allow_loop now cs m).1 m
unfolding allow_loop
allow_loop-SameViews now [] m k = refl
allow_loop-SameViews now (c ∷ cs) m k =
    ground (arith, allow_loop-SameViews now cs (touch c.key now m).1 k, view-touch c.key k now m)

-- Where it denies nothing, it leaves under each key that it checked the counter seen there.
abbrev pub Seen : ℕ → Counters → List LimitCheck → Text → Counters → Type 0
Seen now m cs k n = lookup k n ≡ (if covers cs k then some (view now (lookup k m)) else lookup k m)

pub allow_loop-Seen :
    (now : ℕ) (cs : List LimitCheck) (m : Counters) (k : Text)
    → (allow_loop now cs m).0 ≡ none
    → Seen now m cs k (allow_loop now cs m).1
unfolding allow_loop covers any
allow_loop-Seen now [] m k h = refl
allow_loop-Seen now (c ∷ cs) m k h = ground (
  arith,
  allow_loop-Seen now cs (touch c.key now m).1 k,
  lookup-touch c.key k now m,
  view-touch c.key k now m,
  text_eq_iff c.key k,
)

abbrev pub count_seen : Option Counter → Option Counter
count_seen none = none
count_seen (some c) = some (counted c)

-- The second loop on distinct keys that are there: each counter goes up by one, and no other.
pub count_all_lem :
    (cs : List LimitCheck) (m : Counters)
    → Distinct cs
    → ((k : Text) → covers cs k ≡ true → lookup k m ≢ none)
    → (n : Counters) × (count_all cs m ≡ some n)
      × ((k : Text) → lookup k n ≡ (if covers cs k then count_seen (lookup k m) else lookup k m))
unfolding count_all covers any
count_all_lem [] m d p = (m, refl, λ k. refl)
count_all_lem (c ∷ cs) m d p = elim (Option-cases (lookup c.key m)) [
  | inl e ↦ absurd (p c.key (rw text_eq_refl) e)
  | inr (v, e) ↦
      let m' = insert c.key (counted v) m in
      let (n, q, r) =
        count_all_lem cs m' d.1 (λ k h. ground (arith, lookup-insert c.key k (counted v) m, p k)) in
      (
        n,
        rw (e, count_all) q,
        λ k. ground (arith, r k, lookup-insert c.key k (counted v) m, text_eq_iff c.key k, d.0),
      )
]
