-- ===== src/Smtp/Backend/Forgetting.antt =====
-- `cleanupExpiredAuthFailures` of internal/smtp/backend.go.
use sendry.Base.{
  ℕ, ◌≡◌, ◌≤◌, refl, ap, sym, ◌∙◌, text_eq_refl, lookup-insert, Bool, Bool-cases, true, false, ◌&&◌,
  inl, inr, Option, none, some, Option-cases, [], ◌∷◌, Text, text_eq_iff, lookup, OneEach, leb,
  arith,
}
use sendry.Smtp.Backend.{
  Backend, AuthFailure, AuthFailures, no_failure, block_expired, failure_expired,
  cleanup_expired_auth_failures, is_blocked, check_auth_blocked, in_window, add_failure,
  found_failure, record_auth_failure,
}

-- What a map says of an address, as far as any later call can tell.
pub view : Backend → ℕ → Option AuthFailure → Bool × AuthFailure
unfolding is_blocked add_failure
view b later none = (false, add_failure b later no_failure)
view b later (some f) = (is_blocked b later f, add_failure b later f)

forgets :
    (b : Backend) (now later : ℕ) (f : AuthFailure)
    → now ≤ later
    → block_expired b now f ≡ true
    → failure_expired b now f ≡ true
    → view b later (some f) ≡ view b later none
unfolding view block_expired failure_expired is_blocked add_failure in_window
forgets b now later f h p q = elim (Option-cases f.blocked_at) [
  | inl n ↦ elim (Option-cases f.last_fail) [
    | inl l ↦ ground (arith, n, l)
    | inr (t, l) ↦ ground (arith, n, l)
  ]
  | inr (u, n) ↦ elim (Option-cases f.last_fail) [
    | inl l ↦ ground (arith, n, l)
    | inr (t, l) ↦ ground (arith, n, l)
  ]
]

lookup-cleanup_none :
    (b : Backend) (now : ℕ) (ip : Text) (m : AuthFailures)
    → lookup ip m ≡ none
    → lookup ip (cleanup_expired_auth_failures b now m) ≡ none
unfolding cleanup_expired_auth_failures lookup
lookup-cleanup_none b now ip [] h = refl
lookup-cleanup_none b now ip ((j, f) ∷ m) h = ground (arith, lookup-cleanup_none b now ip m)

view-cleanup :
    (b : Backend) (now later : ℕ) (ip : Text) (m : AuthFailures)
    → now ≤ later
    → OneEach m
    → view b later (lookup ip (cleanup_expired_auth_failures b now m)) ≡ view b later (lookup ip m)
unfolding cleanup_expired_auth_failures lookup
view-cleanup b now later ip [] h o = refl
view-cleanup b now later ip ((j, f) ∷ m) h o =
    let rest = view-cleanup b now later ip m h o.1 in
    elim (Bool-cases (block_expired b now f && failure_expired b now f)) [
      | inl old ↦ ground (
        arith,
        old,
        rest,
        lookup-cleanup_none b now j m o.0,
        text_eq_iff j ip,
        o.0,
        forgets b now later f h,
      )
      | inr young ↦ ground (arith, young, rest)
    ]

view-cases :
    (b : Backend) (later : ℕ) (ip : Text) (m : AuthFailures)
    → view b later (lookup ip m)
      ≡ (check_auth_blocked b later ip m, add_failure b later (found_failure ip m))
unfolding view check_auth_blocked
view-cases b later ip m = elim (Option-cases (lookup ip m)) [
  | inl h ↦ ground (arith, h)
  | inr (f, h) ↦ ground (arith, h)
]

-- On a map with one entry for each address, the cleanup cannot be told later: at any later time
-- the same addresses are blocked as without it, and a new failure gives the same answer and leaves
-- the same count and the same times.
pub cleanup-Same :
    (b : Backend) (now later : ℕ) (ip : Text) (m : AuthFailures)
    → now ≤ later
    → OneEach m
    → let m' = cleanup_expired_auth_failures b now m in
      (check_auth_blocked b later ip m' ≡ check_auth_blocked b later ip m)
      × ((record_auth_failure b later ip m').0 ≡ (record_auth_failure b later ip m).0)
      × (lookup ip (record_auth_failure b later ip m').1
          ≡ lookup ip (record_auth_failure b later ip m).1)
unfolding record_auth_failure
cleanup-Same b now later ip m h o =
    let m' = cleanup_expired_auth_failures b now m in
    let same : ◌≡◌ {A = Bool × AuthFailure}
        (check_auth_blocked b later ip m', add_failure b later (found_failure ip m'))
        (check_auth_blocked b later ip m, add_failure b later (found_failure ip m)) =
      sym (view-cases b later ip m')
      ∙ (view-cleanup b now later ip m h o ∙ view-cases b later ip m) in
    let added = ap (λ p. p.1) same in
    (
      ap (λ p. p.0) same,
      ap (λ f. leb b.max_auth_failures f.count) added,
      ground (
        arith,
        added,
        lookup-insert ip ip (add_failure b later (found_failure ip m)) m,
        lookup-insert ip ip (add_failure b later (found_failure ip m')) m',
        text_eq_refl ip,
      ),
    )
