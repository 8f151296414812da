-- ===== src/Smtp/Backend.antt =====
-- internal/smtp/backend.go: what all sessions of a server share. A duration or a count of the
-- configuration is not negative; the locks make each call one step.
pub mod Forgetting
mod Tests
use sendry.Base.{
  ℕ, ◌+◌, ◌*◌, Bool, true, false, not, ◌&&◌, Option, none, some, List, [], ◌∷◌, Text, codes,
  is_empty, any, text_eq, Dict, lookup, insert, remove, ltb, leb, ◌==◌, if◌then◌else◌,
}
use sendry.Ratelimit.{Config, Counters, Request, Result, second, allow}
use sendry.IpFilter.{NetApi, enabled, is_allowed_addr}

-- The error of a command. `smtp_error` is an `smtp.SMTPError` with its code, its enhanced code, if
-- one is set, and its message; `auth_failed` is the constant `smtp.ErrAuthFailed`.
pub data SmtpError : Type 0 where
  smtp_error : ℕ → Option (ℕ × ℕ × ℕ) → Text → SmtpError
  auth_failed : SmtpError
  plain_error : Text → SmtpError

-- `none` is the zero time.
pub record AuthFailure : Type 0 where
  pub count : ℕ
  pub last_fail : Option ℕ
  pub blocked_at : Option ℕ

abbrev pub AuthFailures : Type 0
AuthFailures = Dict AuthFailure

-- `users` is `none` for a nil map.
pub record AuthConfig : Type 0 where
  pub required : Bool
  pub users : Option (Dict Text)
  pub max_failures : ℕ
  pub block_duration : ℕ
  pub failure_window : ℕ

-- The fields of Backend that do not change while it runs. `auth` and `rate_limiter` are pointers.
pub record Backend : Type 0 where
  pub auth : Option AuthConfig
  pub rate_limiter : Option Config
  pub allowed_domains : List Text
  pub max_auth_failures : ℕ
  pub auth_block_duration : ℕ
  pub auth_failure_window : ℕ

-- NewBackend, with the limiter and the domains that the setters give it.
pub new_backend : AuthConfig → Option Config → List Text → Backend
new_backend auth limits domains = record {
  auth = some auth;
  rate_limiter = limits;
  allowed_domains = domains;
  max_auth_failures = if auth.max_failures == 0 then 5 else auth.max_failures;
  auth_block_duration = if auth.block_duration == 0 then 900 * second else auth.block_duration;
  auth_failure_window = if auth.failure_window == 0 then 300 * second else auth.failure_window;
}

unfoldable pub block_expired : Backend → ℕ → AuthFailure → Bool
block_expired b now f = elim f.blocked_at [
  | none ↦ true
  | some t ↦ ltb (t + b.auth_block_duration) now
]

unfoldable pub failure_expired : Backend → ℕ → AuthFailure → Bool
failure_expired b now f = elim f.last_fail [
  | none ↦ true
  | some t ↦ ltb (t + (b.auth_block_duration + b.auth_failure_window)) now
]

-- cleanupExpiredAuthFailures
unfoldable pub cleanup_expired_auth_failures : Backend → ℕ → AuthFailures → AuthFailures
cleanup_expired_auth_failures b now [] = []
cleanup_expired_auth_failures b now ((ip, f) ∷ m) =
    let rest = cleanup_expired_auth_failures b now m in
    if block_expired b now f && failure_expired b now f then rest else (ip, f) ∷ rest

-- IsDomainAllowed
unfoldable pub is_domain_allowed : Backend → Text → Bool
is_domain_allowed b domain =
    if is_empty b.allowed_domains then true else any (λ d. text_eq d domain) b.allowed_domains

-- CheckRateLimit: the outer `none` is a panic of the limiter, the inner one a nil error.
unfoldable pub check_rate_limit :
    Backend → ℕ → Request → Counters → Option (Option SmtpError × Counters)
check_rate_limit b now req c = elim b.rate_limiter [
  | none ↦ some (none, c)
  | some limits ↦ elim (allow limits now req c) [
    | none ↦ none
    | some (result, c') ↦ some (
      if result.allowed
          then none
          else some
              (smtp_error 452 (some (4, 7, 1)) (codes "Rate limit exceeded, try again later")),
      c',
    )
  ]
]

unfoldable pub is_blocked : Backend → ℕ → AuthFailure → Bool
is_blocked b now f = elim f.blocked_at [
  | none ↦ false
  | some t ↦ ltb now (t + b.auth_block_duration)
]

-- CheckAuthBlocked
unfoldable pub check_auth_blocked : Backend → ℕ → Text → AuthFailures → Bool
unfolding is_blocked
check_auth_blocked b now ip m = elim (lookup ip m) [ none ↦ false | some f ↦ is_blocked b now f ]

abbrev pub no_failure : AuthFailure
no_failure = record { count = 0; last_fail = none; blocked_at = none }

-- The failures of an address, as a new failure finds them: those outside the window do not count.
unfoldable pub in_window : Backend → ℕ → AuthFailure → AuthFailure
in_window b now f = elim f.last_fail [
  | none ↦ record f { count = 0; blocked_at = none }
  | some t ↦
      if ltb (t + b.auth_failure_window) now then record f { count = 0; blocked_at = none } else f
]

-- A failure is counted, and blocks the address if there are too many.
unfoldable pub add_failure : Backend → ℕ → AuthFailure → AuthFailure
unfolding in_window
add_failure b now f =
    let g = in_window b now f in
    record {
      count = g.count + 1;
      last_fail = some now;
      blocked_at = if leb b.max_auth_failures (g.count + 1) then some now else g.blocked_at;
    }

abbrev pub found_failure : Text → AuthFailures → AuthFailure
found_failure ip m = elim (lookup ip m) [ none ↦ no_failure | some f ↦ f ]

-- RecordAuthFailure: whether the address is blocked now.
unfoldable pub record_auth_failure : Backend → ℕ → Text → AuthFailures → Bool × AuthFailures
record_auth_failure b now ip m =
    let f = add_failure b now (found_failure ip m) in
    (leb b.max_auth_failures f.count, insert ip f m)

-- ClearAuthFailure
abbrev pub clear_auth_failure : Text → AuthFailures → AuthFailures
clear_auth_failure ip m = remove ip m

-- NewSession: the error for a connection that the filter refuses.
pub new_session : (api : NetApi) → Option (List api.Net) → Text → Option SmtpError
new_session api ip_filter remote_addr = elim ip_filter [
  | none ↦ none
  | some nets ↦
      if enabled api nets && not (is_allowed_addr api nets remote_addr)
      then some (smtp_error 554 (some (5, 7, 1)) (codes "Connection refused"))
      else none
]
