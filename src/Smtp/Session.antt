-- ===== src/Smtp/Session.antt =====
-- internal/smtp/session.go: the commands of one SMTP connection. The parser of addresses and
-- `net.SplitHostPort` are parameters, as are fresh ids, the bytes of the message, which may fail to
-- be read, and the clock; all readings of the clock in one command give one time.
pub mod Relay
pub mod Accepting
pub mod Guesses
mod Tests
use sendry.Base.{
  ℕ, Bool, true, false, not, ◌&&◌, ◌||◌, Option, none, some, List, [], ◌∷◌, ◌++◌, Text, codes,
  is_empty, text_eq, lookup, if◌then◌else◌,
}
use sendry.Email.{extract_domain}
use sendry.Ratelimit.{Counters, Request}
use sendry.Queue.Message.{Message, status_pending}
use sendry.Queue.Bolt.{Env}
use sendry.Queue.Storage.{Db, enqueue}
use sendry.Smtp.Backend.{
  Backend, AuthFailures, SmtpError, smtp_error, auth_failed, plain_error, check_rate_limit,
  check_auth_blocked, record_auth_failure, clear_auth_failure, is_domain_allowed,
}

pub record Session : Type 0 where
  pub from : Text
  pub to : List Text
  pub auth_user : Text

abbrev pub new_session_state : Session
new_session_state = record { from = []; to = []; auth_user = [] }

-- What a session uses of other packages.
pub record Parsers : Type 0 where
  pub parse_address : Text → Option Text
  pub split_host_port : Text → Option Text

-- Auth: the error for a mechanism, before the exchange starts.
pub auth_mechanism : Text → Option SmtpError
auth_mechanism mech =
    if text_eq mech (codes "PLAIN")
    then none
    else some (plain_error (codes "unsupported authentication mechanism"))

abbrev pub extract_ip : Parsers → Text → Text
extract_ip ps addr = elim (ps.split_host_port addr) [ none ↦ addr | some host ↦ host ]

-- One user's name and password against the configured ones.
unfoldable pub knows : Option Text → Text → Bool
knows none password = false
knows (some expected) password = text_eq expected password

-- The credentials are looked at: a failure is recorded, a success clears the failures.
unfoldable pub check_credentials :
    Backend
    → ℕ
    → Text
    → Text
    → Text
    → Session × AuthFailures
    → Option SmtpError × (Session × AuthFailures)
unfolding knows
check_credentials b now ip username password (s, m) =
    let refused : Option SmtpError × (Session × AuthFailures) =
      (some (plain_error (codes "authentication not configured")), (s, m)) in
    elim b.auth [
      | none ↦ refused
      | some auth ↦ elim auth.users [
        | none ↦ refused
        | some users ↦
            if knows (lookup username users) password
            then (none, (record s { auth_user = username }, clear_auth_failure ip m))
            else (some auth_failed, (s, (record_auth_failure b now ip m).1))
      ]
    ]

-- The function that Auth gives to the PLAIN exchange.
unfoldable pub authenticate :
    Backend
    → Parsers
    → Text
    → ℕ
    → Text
    → Text
    → Text
    → Session × AuthFailures
    → Option SmtpError × (Session × AuthFailures)
authenticate b ps remote_addr now identity username password (s, m) =
    let ip = extract_ip ps remote_addr in
    if not (is_empty identity) && not (text_eq identity username)
    then (some (plain_error (codes "identity must be empty or match username")), (s, m))
    else if check_auth_blocked b now ip m
    then (
      some (smtp_error 454 none (codes "Too many authentication failures, try again later")),
      (s, m),
    )
    else check_credentials b now ip username password (s, m)

abbrev pub auth_required : Backend → Bool
auth_required b = elim b.auth [ none ↦ false | some auth ↦ auth.required ]

-- Mail
unfoldable pub mail : Backend → Parsers → Text → Session → Option SmtpError × Session
mail b ps from s =
    let domain = extract_domain ps.parse_address from in
    if auth_required b && is_empty s.auth_user
    then (some (smtp_error 530 none (codes "Authentication required")), s)
    else if not (is_empty domain) && not (is_domain_allowed b domain)
    then (some (smtp_error 550 (some (5, 7, 1)) (codes "Sender domain not allowed")), s)
    else (none, record s { from = from })

-- Rcpt
abbrev pub rcpt : Text → Session → Session
rcpt to s = record s { to = s.to ++ (to ∷ []) }

-- Reset
abbrev pub reset : Session → Session
reset s = record s { from = []; to = [] }

abbrev pub limit_request : Parsers → Text → Session → Request
limit_request ps remote_addr s = record {
  req_domain = extract_domain ps.parse_address s.from;
  req_sender = s.from;
  req_ip = extract_ip ps remote_addr;
  req_api_key = [];
  req_recipient = [];
}

abbrev pub received : ℕ → Text → Text → Text → Session → Message
received now new_id remote_addr bytes s = record {
  id = new_id;
  from = s.from;
  to = s.to;
  raw = bytes;
  status = status_pending;
  created_at = now;
  updated_at = now;
  next_retry_at = 0;
  retry_count = 0;
  last_error = [];
  client_ip = remote_addr;
  auth_user = s.auth_user;
}

module _ (e : Env) where
  -- The message is read and queued.
  unfoldable pub accept : ℕ → Text → Text → Option Text → Session → Db e → Option SmtpError × Db e
  accept now new_id remote_addr none s db =
      (some (smtp_error 442 none (codes "Failed to read message data")), db)
  accept now new_id remote_addr (some bytes) s db =
      let (done, db') = enqueue e (received now new_id remote_addr bytes s) db in
      (if done then none else some (smtp_error 451 none (codes "Failed to queue message")), db')

  -- DATA, as the method Data handles it; the outer `none` is a panic of the limiter.
  unfoldable pub handle_data :
      Backend
      → Parsers
      → Text
      → ℕ
      → Text
      → Option Text
      → Session
      → Db e × Counters
      → Option (Option SmtpError × (Db e × Counters))
  handle_data b ps remote_addr now new_id bytes s (db, c) =
      elim (check_rate_limit b now (limit_request ps remote_addr s) c) [
        | none ↦ none
        | some (some err, c') ↦ some (some err, (db, c'))
        | some (none, c') ↦
            let (answer, db') = accept now new_id remote_addr bytes s db in some (answer, (db', c'))
      ]
