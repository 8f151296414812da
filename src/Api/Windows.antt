-- ===== src/Api/Windows.antt =====
-- The limits of a key hold in a window: the RateLimiter of internal/web/middleware/middleware.go.
use sendry.Base.{
  ℕ, suc, ◌+◌, ◌≤◌, ◌<◌, ◌≡◌, true, false, some, List, [], ◌∷◌, Text, text_eq, text_eq_iff,
  text_eq_refl, if◌then◌else◌, Dict, lookup, lookup-insert, arith, All, Bool-cases, inl, inr, ◌∙◌,
  sym, ap,
}
use sendry.Api.Limits.{KeyCounter, counter_of, reset_minute, reset_hours, exceeds, allow_key}

pub record KeyRequest : Type 0 where
  pub key : Text
  pub limit_minute : ℕ
  pub limit_hour : ℕ
  pub time : ℕ

-- How many requests of the key are allowed, and the counters after all.
unfoldable pub allowed_of : Text → List KeyRequest → Dict KeyCounter → ℕ × Dict KeyCounter
allowed_of k [] m = (0, m)
allowed_of k (r ∷ rs) m =
    let (ok, m') = allow_key r.key r.limit_minute r.limit_hour r.time m in
    let (n, m'') = allowed_of k rs m' in
    ((if text_eq r.key k then (if ok then suc n else n) else n), m'')

-- The requests of the key have this limit, and come before the windows end.
abbrev pub InWindow : Text → ℕ → KeyCounter → KeyRequest → Type 0
InWindow k limit c r =
    text_eq r.key k ≡ true
    → (r.limit_minute ≡ limit) × (r.time ≤ c.minute_reset) × (r.time ≤ c.hour_reset)

-- A request of another key leaves the counter, and one in its windows counts if it is allowed.
allow_key-other :
    (j k : Text) (lm lh now : ℕ) (m : Dict KeyCounter)
    → text_eq j k ≡ false
    → lookup k (allow_key j lm lh now m).1 ≡ lookup k m
unfolding allow_key
allow_key-other j k lm lh now m d =
    let c = reset_hours now (reset_minute now (counter_of j now m)) in
    ground (
      arith,
      lookup-insert j k c m,
      lookup-insert j k
          (record c { minute_count = c.minute_count + 1; hour_count = c.hour_count + 1 }) m,
    )

allow_key-counts :
    (k : Text) (lm lh now : ℕ) (m : Dict KeyCounter) (c : KeyCounter)
    → lookup k m ≡ some c
    → now ≤ c.minute_reset
    → now ≤ c.hour_reset
    → let (ok, m') = allow_key k lm lh now m in
      (lookup k m' ≡ (
        if ok
        then some (record c { minute_count = c.minute_count + 1; hour_count = c.hour_count + 1 })
        else some c))
      × (ok ≡ true → 0 < lm → c.minute_count < lm)
unfolding allow_key counter_of reset_minute reset_hours exceeds
allow_key-counts k lm lh now m c f a b = ground (
  arith,
  lookup-insert k k c m,
  lookup-insert k k (record c { minute_count = c.minute_count + 1; hour_count = c.hour_count + 1 })
      m,
  text_eq_refl k,
)

abbrev pub counted_once : KeyCounter → KeyCounter
counted_once c = record c { minute_count = c.minute_count + 1; hour_count = c.hour_count + 1 }

-- In the windows of a key's counter, in which it has allowed at most its limit of a minute, it allows no
-- more than what the limit leaves, however many requests of this and of other keys there are, in any
-- order, if the limit is not 0 and stays the same.
pub allowed_of-Within :
    (k : Text) (limit : ℕ) (c : KeyCounter) (rs : List KeyRequest) (m : Dict KeyCounter)
    → lookup k m ≡ some c
    → 0 < limit
    → c.minute_count ≤ limit
    → All (InWindow k limit c) rs
    → (allowed_of k rs m).0 + c.minute_count ≤ limit
unfolding allowed_of
allowed_of-Within k limit c [] m f l h a = omega arith
allowed_of-Within k limit c (r ∷ rs) m f l h a =
    let ok = (allow_key r.key r.limit_minute r.limit_hour r.time m).0 in
    let m' = (allow_key r.key r.limit_minute r.limit_hour r.time m).1 in
    elim (Bool-cases (text_eq r.key k)) [
      | inr other ↦ rw other (
          allowed_of-Within k limit c rs m'
            (allow_key-other r.key k r.limit_minute r.limit_hour r.time m other ∙ f) l h a.1)
      | inl own ↦
          let (el, t1, t2) = a.0 own in
          let same : r.key ≡ k = (text_eq_iff r.key k).0 own in
          let counts =
            allow_key-counts r.key r.limit_minute r.limit_hour r.time m c (rw same f) t1 t2 in
          let found : lookup k m' ≡ lookup r.key m' = ap (λ x. lookup x m') (sym same) in
          elim (Bool-cases ok) [
            | inl yes_ok ↦
                let room : c.minute_count < limit = ground (arith, counts.1 yes_ok) in
                let ih =
                  allowed_of-Within k limit (counted_once c) rs m' (ground (arith, found, counts.0))
                    l (ground arith) a.1 in
                rw (own, yes_ok) (omega (arith, ih))
            | inr no_ok ↦
                let ih =
                  allowed_of-Within k limit c rs m' (ground (arith, found, counts.0)) l h a.1 in
                rw (own, no_ok) ih
          ]
    ]
