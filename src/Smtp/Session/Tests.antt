-- ===== src/Smtp/Session/Tests.antt =====
-- The properties of a session at concrete inputs.
use sendry.Base.{
  ℕ, ◌≡◌, refl, true, false, Option, none, some, List, [], ◌∷◌, Text, Dict, codes, is_empty, lookup,
  text_eq, arith,
}
use sendry.Ratelimit.{Counters}
use sendry.Queue.Bolt.Sample.{sample}
use sendry.Queue.Storage.{Db}
use sendry.Smtp.Backend.{Backend, AuthConfig, SmtpError, smtp_error}
use sendry.Smtp.Session.{Session, Parsers, new_session_state, handle_data, received, knows}
use sendry.Smtp.Session.Relay.{
  Command, authenticates, mails, rcpts, IsUser, IsPermitted, run_commands, run-IsPermitted,
}
use sendry.Smtp.Session.Accepting.{Answered, handle_data-Answered}
use sendry.Smtp.Session.Guesses.{Attempt, try_all, try_password, try_all-refused}

abbrev users : Dict Text
users = (codes "ann", codes "pw") ∷ []

abbrev auth : AuthConfig
auth = record {
  required = true;
  users = some users;
  max_failures = 2;
  block_duration = 9;
  failure_window = 3;
}

abbrev server : Backend
server = record {
  auth = some auth;
  rate_limiter = none;
  allowed_domains = codes "a.org" ∷ [];
  max_auth_failures = 2;
  auth_block_duration = 9;
  auth_failure_window = 3;
}

abbrev parsers : Parsers
parsers = record { parse_address = λ s. none; split_host_port = λ s. none }

abbrev host : Text
host = codes "10.0.0.1"

abbrev commands : List (ℕ × Command)
commands =
    (1, authenticates [] (codes "ann") (codes "pw"))
    ∷ (2, mails (codes "x@a.org"))
    ∷ (3, rcpts (codes "y@b.org"))
    ∷ []

users_named : (name : Text) → IsUser server name → is_empty name ≡ false
unfolding lookup text_eq
users_named [] (a, us, password, h, u, l) = absurd (ground (arith, h, u, l))
users_named (c ∷ name) user = refl

run-IsPermitted_example :
    IsPermitted server parsers host
      (run_commands server parsers host commands (new_session_state, [])).0
run-IsPermitted_example = run-IsPermitted server parsers host commands [] users_named

abbrev empty_queue : Db sample
empty_queue = record { messages = []; pending = []; deferred = []; dead_letter = [] }

abbrev session : Session
session = record { from = codes "x@a.org"; to = codes "y@b.org" ∷ []; auth_user = codes "ann" }

handle_data-Answered_example :
    (answer : Option SmtpError) × (db' : Db sample) × (c' : Counters) × (handle_data sample server
        parsers host 4
        (codes "m1")
        (some (codes "Hi"))
        session
        (empty_queue, [])
      ≡ some (answer, (db', c')))
    × Answered sample answer (received 4 (codes "m1") host (codes "Hi") session) empty_queue db'
handle_data-Answered_example =
    handle_data-Answered sample server parsers host 4 (codes "m1") (codes "Hi") session empty_queue
      []

abbrev guess : ℕ → Attempt
guess t = record { at = t; identity = codes "ann"; username = codes "ann"; password = codes "no" }

abbrev right : Attempt
right = record { at = 10; identity = []; username = codes "ann"; password = codes "pw" }

try_all-refused_example :
    let w = try_all server parsers host (guess 1 ∷ guess 3 ∷ []) (new_session_state, []) in
    (w.0 ≡ new_session_state)
    × ((try_password server parsers host right w).0
        ≡ some (smtp_error 454 none (codes "Too many authentication failures, try again later")))
    × ((try_password server parsers host right w).1 ≡ w)
unfolding lookup text_eq knows
try_all-refused_example =
    try_all-refused server parsers host auth users (guess 1) (guess 3 ∷ []) right new_session_state
      [] refl refl refl (refl, refl) ((refl, refl), omega arith, tt) refl (omega arith)
