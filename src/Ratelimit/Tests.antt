-- ===== src/Ratelimit/Tests.antt =====
-- The properties of the limiter at concrete inputs.
use sendry.Base.{
  OneEach, ℕ, ◌+◌, ◌-◌, ◌≡◌, refl, false, none, some, List, [], ◌∷◌, codes, text_eq, lookup, arith,
}
use sendry.Ratelimit.{
  Config, Counters, Request, allow, check, over_limit, make_key, domain, check_for, check_one,
  get_checks, cleanup_expired_counters, check_loop, hour,
}
use sendry.Ratelimit.Agreement.{Counts, allow-eq-check}
use sendry.Ratelimit.Bounds.{Within}
use sendry.Ratelimit.Forgetting.{
  Asked, asks_allow, asks_recipient, asks_check, replies, replies-cleanup,
}
use sendry.Ratelimit.History.{Call, run, allows, allows_recipient, cleans, run-Within}
use sendry.Ratelimit.Retry.{Waits, check-Waits}

abbrev limits : Config
limits = record {
  global_limit = none;
  default_domain = some (record { messages_per_hour = 1; messages_per_day = 2 });
  default_sender = none;
  default_ip = none;
  default_api_key = none;
  default_recipient_domain = some (record { messages_per_hour = 5; messages_per_day = 0 });
  recipient_domains = [];
}

abbrev a_mail : Request
a_mail = record {
  req_domain = codes "a.org";
  req_sender = codes "x@a.org";
  req_ip = [];
  req_api_key = [];
  req_recipient = [];
}

abbrev full : Counters
full =
    (
      codes "domain:a.org",
      record { hourly_count = 1; daily_count = 1; hour_start = 7; day_start = 7 },
    )
    ∷ []

abbrev calls : List (ℕ × Call)
calls = (5, allows a_mail) ∷ (9, allows_recipient (codes "b.org")) ∷ (9, cleans) ∷ []

full_denied : check limits 9 a_mail full ≡ record {
  allowed = false;
  denied_by = some domain;
  denied_key = codes "domain:a.org";
  retry_after = hour - 2;
}
unfolding check check_loop get_checks check_for check_one over_limit make_key lookup text_eq
full_denied = refl

allow-eq-check_example :
    (n : Counters) × (allow limits 9 a_mail full ≡ some (check limits 9 a_mail full, n))
    × Counts limits 9 a_mail full n
allow-eq-check_example = allow-eq-check limits 9 a_mail full

-- Later than a day after the counters started.
abbrev next_day : ℕ
next_day = 90_000_000_000_000

abbrev later_calls : List (ℕ × Asked)
later_calls =
    (next_day, asks_check a_mail)
    ∷ (next_day + 3, asks_allow a_mail)
    ∷ (next_day + 7, asks_recipient (codes "b.org"))
    ∷ []

replies-cleanup_example :
    replies limits later_calls (cleanup_expired_counters next_day full)
    ≡ replies limits later_calls full
unfolding lookup
replies-cleanup_example =
    replies-cleanup limits next_day later_calls full (refl, tt)
      (omega arith, (omega arith, (omega arith, tt)))

run-Within_example : (n : Counters) × (run limits calls [] ≡ some n) × OneEach n × Within limits n
run-Within_example = run-Within limits calls

check-Waits_example : Waits 9 full (check limits 9 a_mail full)
unfolding check check_loop get_checks check_for check_one over_limit make_key lookup text_eq
check-Waits_example = check-Waits limits 9 a_mail full refl
