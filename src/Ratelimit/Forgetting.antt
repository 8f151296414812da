-- ===== src/Ratelimit/Forgetting.antt =====
-- What a cleanup of limiter.go does to the calls that follow it.
use sendry.Base.{
  ℕ, ◌≡◌, ◌≤◌, ◌∙◌, sym, ap, refl, OneEach, Option, none, some, List, [], ◌∷◌, Text, lookup, arith,
  Option-cases, inl, inr, if◌then◌else◌,
}
use sendry.Ratelimit.{
  Counters, Config, Request, LimitCheck, Result, allow, allow_loop, allow_recipient, check,
  cleanup_expired_counters, finish_allow, get_checks, touch, over_limit, counted, accepted,
}
use sendry.Ratelimit.Views.{view, touch-view, lookup-touch}
use sendry.Ratelimit.Keys.{covers, Distinct, get_checks-Distinct}
use sendry.Ratelimit.Counting.{first_denial-SameViews, count_all_lem, allow_loop-Seen}
use sendry.Ratelimit.Agreement.{check_loop-first_denial, or_accepted}
use sendry.Ratelimit.Bounds.{recipient_checks, recipient_checks-Distinct, allow_recipient-eq-allow}
use sendry.Ratelimit.Cleanup.{cleanup-SameViews}

-- The limiter sees the same in both maps, at any time from then on.
abbrev SameFrom : ℕ → Counters → Counters → Type 0
SameFrom t m n =
    (k : Text) (later : ℕ) → t ≤ later → view later (lookup k m) ≡ view later (lookup k n)

module _ (now : ℕ) where
  touch-SameFrom :
      (k : Text) (m n : Counters)
      → SameFrom now m n
      → ((touch k now m).0 ≡ (touch k now n).0) × SameFrom now (touch k now m).1 (touch k now n).1
  touch-SameFrom k m n s = (
    touch-view k now m ∙ (s k now (omega arith) ∙ sym (touch-view k now n)),
    λ j later h.
        ground (
          arith,
          lookup-touch k j now m,
          lookup-touch k j now n,
          s k now (omega arith),
          s j later h,
        ),
  )

  -- A denial is the same, and leaves the maps alike.
  allow_loop-SameFrom :
      (cs : List LimitCheck) (m n : Counters)
      → SameFrom now m n
      → ((allow_loop now cs m).0 ≡ (allow_loop now cs n).0)
        × SameFrom now (allow_loop now cs m).1 (allow_loop now cs n).1
  unfolding allow_loop
  allow_loop-SameFrom [] m n s = (refl, s)
  allow_loop-SameFrom (c ∷ cs) m n s =
      let (seen, s') = touch-SameFrom c.key m n s in
      let v = (touch c.key now m).0 in
      let rest = allow_loop-SameFrom cs (touch c.key now m).1 (touch c.key now n).1 s' in
      elim (Option-cases (over_limit c v.hourly_count v.daily_count v now)) [
        | inl e ↦ rw (allow_loop, sym seen, e) rest
        | inr (r, e) ↦ rw (allow_loop, sym seen, e) (refl, s')
      ]

  -- Both calls give this result, and leave maps in which the limiter sees the same.
  pub record Alike (a b : Option (Result × Counters)) : Type 0 where
    pub result : Result
    pub left : Counters
    pub right : Counters
    pub is_left : a ≡ some (result, left)
    pub is_right : b ≡ some (result, right)
    pub same : SameFrom now left right

  -- The maps after an accepted request.
  finish_accepted :
      (cs : List LimitCheck) (m : Counters)
      → Distinct cs
      → (allow_loop now cs m).0 ≡ none
      → (n : Counters) × (finish_allow cs (allow_loop now cs m) ≡ some (accepted, n))
        × ((k : Text)
            → lookup k n
              ≡ (if covers cs k then some (counted (view now (lookup k m))) else lookup k m))
  unfolding finish_allow
  finish_accepted cs m d e =
      let m' = (allow_loop now cs m).1 in
      let (n, q, r) = count_all_lem cs m' d (λ k h. ground (arith, allow_loop-Seen now cs m k e)) in
      (n, ground (arith, e, q), λ k. ground (arith, r k, allow_loop-Seen now cs m k e))

  finish-Alike :
      (cs : List LimitCheck) (m n : Counters)
      → Distinct cs
      → SameFrom now m n
      → Alike (finish_allow cs (allow_loop now cs m)) (finish_allow cs (allow_loop now cs n))
  unfolding finish_allow
  finish-Alike cs m n d s =
      let (verdict, s') = allow_loop-SameFrom cs m n s in
      elim (Option-cases (allow_loop now cs m).0) [
        | inr (r, e) ↦ record {
          result = r;
          left = (allow_loop now cs m).1;
          right = (allow_loop now cs n).1;
          is_left = ground (arith, e);
          is_right = ground (arith, e, verdict);
          same = s';
        }
        | inl e ↦
            let (m', q, f) = finish_accepted cs m d e in
            let (n', q', f') = finish_accepted cs n d (sym verdict ∙ e) in
            record {
              result = accepted;
              left = m';
              right = n';
              is_left = q;
              is_right = q';
              same = λ k later h. ground (arith, f k, f' k, s k now (omega arith), s k later h);
            }
      ]

-- A call that a client waits for, and what it answers; `none` is a panic.
pub data Asked : Type 0 where
  asks_allow : Request → Asked
  asks_recipient : Text → Asked
  asks_check : Request → Asked

unfoldable pub reply : Config → ℕ → Asked → Counters → Option (Result × Counters)
reply cfg now (asks_allow req) m = allow cfg now req m
reply cfg now (asks_recipient d) m = some (allow_recipient cfg now d m)
reply cfg now (asks_check req) m = some (check cfg now req m, m)

unfoldable pub replies : Config → List (ℕ × Asked) → Counters → List (Option Result)
replies cfg [] m = []
replies cfg ((now, a) ∷ cs) m = elim (reply cfg now a m) [
  | none ↦ none ∷ []
  | some (r, n) ↦ some r ∷ replies cfg cs n
]

-- The calls follow one another from a time on.
abbrev pub InOrder : ℕ → List (ℕ × Asked) → Type 0
InOrder t [] = Unit {0}
InOrder t ((now, a) ∷ cs) = (t ≤ now) × InOrder now cs

SameFrom-later : (t now : ℕ) (m n : Counters) → t ≤ now → SameFrom t m n → SameFrom now m n
SameFrom-later t now m n h s k later l = s k later (omega (arith, h, l))

check-SameFrom :
    (cfg : Config) (now : ℕ) (req : Request) (m n : Counters)
    → SameFrom now m n
    → check cfg now req m ≡ check cfg now req n
unfolding check
check-SameFrom cfg now req m n s =
    let cs = get_checks cfg req in
    check_loop-first_denial now cs m
    ∙ ap or_accepted (first_denial-SameViews now cs m n (λ k. s k now (omega arith)))
    ∙ sym (check_loop-first_denial now cs n)

reply-Alike :
    (cfg : Config) (now : ℕ) (a : Asked) (m n : Counters)
    → SameFrom now m n
    → Alike now (reply cfg now a m) (reply cfg now a n)
unfolding reply allow
reply-Alike cfg now (asks_allow req) m n s =
    finish-Alike now (get_checks cfg req) m n (get_checks-Distinct cfg req) s
reply-Alike cfg now (asks_recipient d) m n s =
    let cs = recipient_checks cfg d in
    let both = finish-Alike now cs m n (recipient_checks-Distinct cfg d) s in
    record {
      result = both.result;
      left = both.left;
      right = both.right;
      is_left = sym (allow_recipient-eq-allow cfg now d m) ∙ both.is_left;
      is_right = sym (allow_recipient-eq-allow cfg now d n) ∙ both.is_right;
      same = both.same;
    }
reply-Alike cfg now (asks_check req) m n s = record {
  result = check cfg now req m;
  left = m;
  right = n;
  is_left = refl;
  is_right = ap (λ r. some (r, n)) (sym (check-SameFrom cfg now req m n s));
  same = s;
}

replies-SameFrom :
    (cfg : Config) (t : ℕ) (cs : List (ℕ × Asked)) (m n : Counters)
    → InOrder t cs
    → SameFrom t m n
    → replies cfg cs m ≡ replies cfg cs n
unfolding replies
replies-SameFrom cfg t [] m n o s = refl
replies-SameFrom cfg t ((now, a) ∷ cs) m n o s =
    let both = reply-Alike cfg now a m n (SameFrom-later t now m n o.0 s) in
    rw (replies, both.is_left, both.is_right)
      (ap (λ l. some both.result ∷ l)
        (replies-SameFrom cfg now cs both.left both.right o.1 both.same))

-- On a map with one entry for each key, no calls of Allow, AllowRecipient and Check that follow a
-- cleanup, at its time or later and in the order of time, can tell that there was one: each of them
-- answers as without it, with the same verdict, the same limit that denied and the same time to wait.
pub replies-cleanup :
    (cfg : Config) (now : ℕ) (cs : List (ℕ × Asked)) (m : Counters)
    → OneEach m
    → InOrder now cs
    → replies cfg cs (cleanup_expired_counters now m) ≡ replies cfg cs m
replies-cleanup cfg now cs m one o =
    replies-SameFrom cfg now cs (cleanup_expired_counters now m) m o
      (λ k later h. cleanup-SameViews now later m h one k)
