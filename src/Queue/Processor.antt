-- ===== src/Queue/Processor.antt =====
-- internal/queue/processor.go: what a worker does with one message, over the bolt storage and the
-- counters of the rate limiter. The sender, the generator of bounces, fresh ids, the parser of
-- addresses and the clock are parameters; all readings of the clock in one call give one time. Logs,
-- metrics and the channels that stop the workers are not modelled.
pub mod Outcome
pub mod Bounces
pub mod Attempts
mod Tests
use sendry.Base.{
  ℕ, ◌+◌, ◌*◌, Bool, true, false, not, ◌&&◌, ◌||◌, Option, none, some, List, [], ◌∷◌, ◌++◌, Text,
  codes, is_empty, text_eq, to_lower, contains, has_suffix, ltb, ◌==◌, if◌then◌else◌,
}
use sendry.Email.{extract_domain}
use sendry.Ratelimit.{Config, Counters, Result, second, allow_recipient}
use sendry.Queue.Message.{
  Message, SendError, error_text, status_pending, status_delivered, status_failed, status_deferred,
}
use sendry.Queue.Bolt.{Env}
use sendry.Queue.Backoff.{calculate_backoff, add_duration}
use sendry.Queue.Storage.{Db, enqueue, dequeue, update}
use sendry.Queue.Storage.Reading.{delete}
use sendry.Queue.Storage.DeadLetter.{move_to_dlq}

-- The numbers of the configuration, 0 standing for all that are 0 or less.
pub record ProcessorConfig : Type 0 where
  pub workers : ℕ
  pub retry_interval : ℕ
  pub max_retries : ℕ
  pub process_interval : ℕ
  pub dlq_enabled : Bool

-- The defaults that NewProcessor fills in.
pub new_processor : ProcessorConfig → ProcessorConfig
new_processor cfg = record cfg {
  workers = if cfg.workers == 0 then 4 else cfg.workers;
  retry_interval = if cfg.retry_interval == 0 then 300 * second else cfg.retry_interval;
  max_retries = if cfg.max_retries == 0 then 5 else cfg.max_retries;
  process_interval = if cfg.process_interval == 0 then 10 * second else cfg.process_interval;
}

-- What the processor is given. `send` returns the data as the sender leaves it in the message,
-- which it reaches through a pointer, and the error or nil; `parse` is net/mail's parser. `limits`
-- and `generate_dsn` may be absent; making the text of a bounce may fail.
pub record Services : Type 0 where
  pub send : Message → Text × Option SendError
  pub is_temporary : SendError → Bool
  pub parse : Text → Option Text
  pub limits : Option Config
  pub generate_dsn : Option (Message → Text → Option Text)

unfoldable pub is_bounce_message : Message → Bool
is_bounce_message m =
    let from = to_lower m.from in
    has_suffix (codes "-bounce") m.id
    || (is_empty m.from
        || (text_eq m.from (codes "<>")
            || (contains (codes "mailer-daemon") from || contains (codes "postmaster") from)))

abbrev pub bounce_message : ℕ → Text → Message → Text → Message
bounce_message now new_id m dsn = record {
  id = new_id;
  from = [];
  to = m.from ∷ [];
  raw = dsn;
  status = status_pending;
  created_at = now;
  updated_at = now;
  next_retry_at = 0;
  retry_count = 0;
  last_error = [];
  client_ip = [];
  auth_user = [];
}

module _ (e : Env) (svc : Services) where
  -- sendBounce
  unfoldable pub send_bounce : ℕ → Text → Message → Text → Db e → Db e
  send_bounce now new_id m error db = elim svc.generate_dsn [
    | none ↦ db
    | some generate ↦ if is_bounce_message m then db else elim (generate m error) [
      | none ↦ db
      | some dsn ↦ (enqueue e (bounce_message now new_id m dsn) db).1
    ]
  ]

  -- The first recipient's domain that is over its limit, with the waiting time. The domains before
  -- it have been counted.
  unfoldable pub check_recipients : Config → ℕ → List Text → Counters → Option (Text × ℕ) × Counters
  check_recipients limits now [] c = (none, c)
  check_recipients limits now (rcpt ∷ rest) c =
      let domain = extract_domain svc.parse rcpt in
      let skipped = check_recipients limits now rest c in
      let answer = allow_recipient limits now domain c in
      let passed = check_recipients limits now rest answer.1 in
      if is_empty domain
      then skipped
      else if answer.0.allowed
      then passed
      else (some (domain, answer.0.retry_after), answer.1)

  -- The check of the limits, if there is a limiter.
  unfoldable pub check_limits : ℕ → Message → Counters → Option (Text × ℕ) × Counters
  check_limits now m c = elim svc.limits [
    | none ↦ (none, c)
    | some limits ↦ check_recipients limits now m.to c
  ]

  abbrev pub limited : ℕ → Text × ℕ → Message → Message
  limited now (domain, wait) m = record m {
    status = status_deferred;
    last_error = codes "recipient domain rate limit exceeded: " ++ domain;
    updated_at = now;
    next_retry_at = now + wait;
  }

  abbrev pub delivered : ℕ → Message → Message
  delivered now m = record m { status = status_delivered; updated_at = now }

  -- The counted failure, before it is decided what becomes of the message.
  abbrev pub failed_once : ℕ → SendError → Message → Message
  failed_once now err m = record m {
    retry_count = m.retry_count + 1;
    last_error = error_text err;
    updated_at = now;
  }

  abbrev pub rescheduled : ProcessorConfig → ℕ → Message → Message
  rescheduled cfg now m = record m {
    status = status_deferred;
    next_retry_at = add_duration now (calculate_backoff cfg.retry_interval m.retry_count);
  }

  abbrev pub given_up : Message → Message
  given_up m = record m { status = status_failed }

  -- The end of a permanent failure: to the dead letters, or away; if that fails, it is updated.
  unfoldable pub dispose : ProcessorConfig → ℕ → Message → Db e → Db e
  dispose cfg now m db =
      let moved = move_to_dlq e now m db in
      let gone = delete e m.id db in
      if cfg.dlq_enabled
      then (if moved.0 then moved.1 else (update e now m db).1)
      else if gone.0
      then gone.1
      else (update e now m db).1

  unfoldable pub handle_failure : ProcessorConfig → ℕ → Text → SendError → Message → Db e → Db e
  handle_failure cfg now new_id err m db =
      let m' = failed_once now err m in
      if svc.is_temporary err && ltb m'.retry_count cfg.max_retries
      then (update e now (rescheduled cfg now m') db).1
      else dispose cfg now (given_up m') (send_bounce now new_id (given_up m') (error_text err) db)

  unfoldable pub process_message :
      ProcessorConfig → ℕ → Text → Message → Db e × Counters → Db e × Counters
  process_message cfg now new_id m (db, c) =
      let (over, c') = check_limits now m c in
      elim over [
        | some limit ↦ ((update e now (limited now limit m) db).1, c')
        | none ↦
            let (raw', answer) = svc.send m in
            let m' = record m { raw = raw' } in
            elim answer [
              | none ↦ ((update e now (delivered now m') db).1, c')
              | some err ↦ (handle_failure cfg now new_id err m' db, c')
            ]
      ]

  -- processOne
  unfoldable pub process_one : ProcessorConfig → ℕ → Text → Db e × Counters → Db e × Counters
  process_one cfg now new_id (db, c) =
      let (found, db') = dequeue e now db in
      elim found [ some (some m) ↦ process_message cfg now new_id m (db', c) | _ ↦ (db', c) ]
