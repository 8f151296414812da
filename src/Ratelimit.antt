-- ===== src/Ratelimit.antt =====
-- internal/ratelimit/limiter.go: hourly and daily counters for several levels of limits.
-- A `time.Time` and a `time.Duration` are numbers of nanoseconds, and `now.Sub(t) >= d` is
-- `t + d ≤ now`, which holds of no `t` in the future, as in the source. An `int` limit of 0 or
-- less means that there is no limit: 0 stands for all of these. The mutex makes each call one step.
mod Views
mod Keys
mod Counting
pub mod Agreement
pub mod Bounds
pub mod Cleanup
pub mod History
pub mod Retry
mod Forgetting
mod Tests
use sendry.Base.{
  ℕ, ◌+◌, ◌-◌, ◌*◌, Bool, true, false, not, ◌&&◌, Option, none, some, List, [], ◌∷◌, ◌++◌, Text,
  codes, is_empty, Dict, lookup, insert, ltb, leb, if◌then◌else◌,
}

abbrev pub second : ℕ
second = 1000000000

abbrev pub hour : ℕ
hour = 3600 * second

abbrev pub day : ℕ
day = 24 * hour

pub data Level : Type 0 where
  global domain sender ip api_key recipient : Level

abbrev pub level_text : Level → Text
level_text global = codes "global"
level_text domain = codes "domain"
level_text sender = codes "sender"
level_text ip = codes "ip"
level_text api_key = codes "api_key"
level_text recipient = codes "recipient_domain"

pub record LimitConfig : Type 0 where
  pub messages_per_hour : ℕ
  pub messages_per_day : ℕ

-- A nil pointer is `none`; `recipient_domains` may hold nil pointers too.
pub record Config : Type 0 where
  pub global_limit : Option LimitConfig
  pub default_domain : Option LimitConfig
  pub default_sender : Option LimitConfig
  pub default_ip : Option LimitConfig
  pub default_api_key : Option LimitConfig
  pub default_recipient_domain : Option LimitConfig
  pub recipient_domains : Dict (Option LimitConfig)

pub record Counter : Type 0 where
  pub hourly_count : ℕ
  pub daily_count : ℕ
  pub hour_start : ℕ
  pub day_start : ℕ

pub record Request : Type 0 where
  pub req_domain : Text
  pub req_sender : Text
  pub req_ip : Text
  pub req_api_key : Text
  pub req_recipient : Text

-- `denied_by` is `none` for the empty string of an allowed request.
pub record Result : Type 0 where
  pub allowed : Bool
  pub denied_by : Option Level
  pub denied_key : Text
  pub retry_after : ℕ

pub record LimitCheck : Type 0 where
  pub level : Level
  pub key : Text
  pub limit : LimitConfig

abbrev pub Counters : Type 0
Counters = Dict Counter

unfoldable pub make_key : Level → Text → Text
make_key l k = level_text l ++ (b':' ∷ k)

unfoldable pub get_recipient_domain_limit : Config → Text → Option LimitConfig
get_recipient_domain_limit cfg d = elim (lookup d cfg.recipient_domains) [
  | some limit ↦ limit
  | none ↦ cfg.default_recipient_domain
]

-- One `append` of `getChecks`: a check of a level, if the request names a key and a limit is set.
pub check_for : Level → Text → Bool → Option LimitConfig → List LimitCheck
check_for l k applies none = []
check_for l k applies (some limit) =
    if applies then record { level = l; key = make_key l k; limit = limit } ∷ [] else []

pub get_checks : Config → Request → List LimitCheck
get_checks cfg req =
    check_for global (codes "global") true cfg.global_limit
    ++ (check_for domain req.req_domain (not (is_empty req.req_domain)) cfg.default_domain
        ++ (check_for sender req.req_sender (not (is_empty req.req_sender)) cfg.default_sender
            ++ (check_for ip req.req_ip (not (is_empty req.req_ip)) cfg.default_ip
                ++ (check_for api_key req.req_api_key (not (is_empty req.req_api_key))
                      cfg.default_api_key
                    ++ check_for recipient req.req_recipient (not (is_empty req.req_recipient))
                        (get_recipient_domain_limit cfg req.req_recipient)))))

-- The counter of a key, made with both windows starting now if there is none.
get_or_create_counter : Text → ℕ → Counters → Counter × Counters
get_or_create_counter k now m = elim (lookup k m) [
  | some c ↦ (c, m)
  | none ↦
      let c : Counter = record {
        hourly_count = 0;
        daily_count = 0;
        hour_start = now;
        day_start = now;
      } in
      (c, insert k c m)
]

reset_hour : Counter → ℕ → Counter
reset_hour c now =
    if leb (c.hour_start + hour) now then record c { hourly_count = 0; hour_start = now } else c

reset_day : Counter → ℕ → Counter
reset_day c now =
    if leb (c.day_start + day) now then record c { daily_count = 0; day_start = now } else c

unfoldable pub reset_expired_counters : Counter → ℕ → Counter
unfolding reset_hour reset_day
reset_expired_counters c now = reset_day (reset_hour c now) now

-- The first two lines of the loop of `Allow`: the reset writes through the map's pointer.
pub touch : Text → ℕ → Counters → Counter × Counters
unfolding get_or_create_counter
touch k now m =
    let (c, m') = get_or_create_counter k now m in
    let c' = reset_expired_counters c now in (c', insert k c' m')

abbrev pub accepted : Result
accepted = record { allowed = true; denied_by = none; denied_key = []; retry_after = 0 }

abbrev pub denied : LimitCheck → ℕ → Result
denied check wait = record {
  allowed = false;
  denied_by = some check.level;
  denied_key = check.key;
  retry_after = wait;
}

-- The hourly and the daily test, on counts and the starts of their windows.
pub over_limit : LimitCheck → ℕ → ℕ → Counter → ℕ → Option Result
over_limit check hourly daily c now =
    if ltb 0 check.limit.messages_per_hour && leb check.limit.messages_per_hour hourly
    then some (denied check (c.hour_start + hour - now))
    else if ltb 0 check.limit.messages_per_day && leb check.limit.messages_per_day daily
    then some (denied check (c.day_start + day - now))
    else none

-- The first loop of `Allow`: it stops at the first limit that is reached.
pub allow_loop : ℕ → List LimitCheck → Counters → Option Result × Counters
allow_loop now [] m = (none, m)
allow_loop now (check ∷ rest) m =
    let (c, m') = touch check.key now m in
    elim (over_limit check c.hourly_count c.daily_count c now) [
      | some r ↦ (some r, m')
      | none ↦ allow_loop now rest m'
    ]

abbrev pub counted : Counter → Counter
counted c = record c { hourly_count = c.hourly_count + 1; daily_count = c.daily_count + 1 }

-- The second loop of `Allow`. A missing counter is a nil pointer: `none` is the panic.
pub count_all : List LimitCheck → Counters → Option Counters
count_all [] m = some m
count_all (check ∷ rest) m = elim (lookup check.key m) [
  | none ↦ none
  | some c ↦ count_all rest (insert check.key (counted c) m)
]

pub finish_allow : List LimitCheck → Option Result × Counters → Option (Result × Counters)
finish_allow checks (some r, m) = some (r, m)
finish_allow checks (none, m) = elim (count_all checks m) [
  | none ↦ none
  | some m' ↦ some (accepted, m')
]

-- Allow. `none` is a nil pointer panic.
pub allow : Config → ℕ → Request → Counters → Option (Result × Counters)
unfolding finish_allow
allow cfg now req m =
    let checks = get_checks cfg req in finish_allow checks (allow_loop now checks m)

-- AllowRecipient.
pub allow_recipient : Config → ℕ → Text → Counters → Result × Counters
allow_recipient cfg now d m = elim (get_recipient_domain_limit cfg d) [
  | none ↦ (accepted, m)
  | some limit ↦
      let check : LimitCheck = record {
        level = recipient;
        key = make_key recipient d;
        limit = limit;
      } in
      let (c, m') = touch check.key now m in
      elim (over_limit check c.hourly_count c.daily_count c now) [
        | some r ↦ (r, m')
        | none ↦ (accepted, insert check.key (counted c) m')
      ]
]

-- What `Check` and `GetStats` read: the counts, with those of a window that has passed at 0.
current_hourly : Counter → ℕ → ℕ
current_hourly c now = if leb (c.hour_start + hour) now then 0 else c.hourly_count

current_daily : Counter → ℕ → ℕ
current_daily c now = if leb (c.day_start + day) now then 0 else c.daily_count

check_one : ℕ → LimitCheck → Option Counter → Option Result
unfolding current_hourly current_daily
check_one now check none = none
check_one now check (some c) = over_limit check (current_hourly c now) (current_daily c now) c now

pub check_loop : ℕ → List LimitCheck → Counters → Result
check_loop now [] m = accepted
check_loop now (check ∷ rest) m = elim (check_one now check (lookup check.key m)) [
  | some r ↦ r
  | none ↦ check_loop now rest m
]

-- Check.
pub check : Config → ℕ → Request → Counters → Result
unfolding check_loop
check cfg now req m = check_loop now (get_checks cfg req) m

pub record Stats : Type 0 where
  pub stats_hourly : ℕ
  pub stats_daily : ℕ
  pub stats_hour_start : Option ℕ
  pub stats_day_start : Option ℕ

-- GetStats; the start of a window is `none` for the zero time of a key with no counter.
pub get_stats : Level → Text → ℕ → Counters → Stats
unfolding current_hourly current_daily
get_stats l k now m = elim (lookup (make_key l k) m) [
  | none ↦ record {
    stats_hourly = 0;
    stats_daily = 0;
    stats_hour_start = none;
    stats_day_start = none;
  }
  | some c ↦ record {
    stats_hourly = current_hourly c now;
    stats_daily = current_daily c now;
    stats_hour_start = some c.hour_start;
    stats_day_start = some c.day_start;
  }
]

-- cleanupExpiredCounters, on the map in memory.
pub cleanup_expired_counters : ℕ → Counters → Counters
cleanup_expired_counters now [] = []
cleanup_expired_counters now ((k, c) ∷ m) =
    let rest = cleanup_expired_counters now m in
    if ltb (c.hour_start + day) now && ltb (c.day_start + day) now then rest else (k, c) ∷ rest
