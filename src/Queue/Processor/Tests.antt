-- ===== src/Queue/Processor/Tests.antt =====
-- The properties of the processor at concrete inputs.
use sendry.Base.{ℕ, ◌≡◌, refl, true, none, some, [], ◌∷◌, Text, codes, lookup, text_eq, arith}
use sendry.Queue.Message.{
  Message, SendError, simulated_error, json, status_sending, status_deferred,
}
use sendry.Queue.Bolt.Sample.{sample}
use sendry.Queue.Storage.{Db, update, update_in_tx, index_deferred, make_index_key}
use sendry.Queue.Backoff.{calculate_backoff, add_duration, shift_one}
use sendry.Queue.Processor.{
  ProcessorConfig, Services, process_one, handle_failure, is_bounce_message, bounce_message,
}
use sendry.Queue.Processor.Outcome.{Calls, process_one-Calls}
use sendry.Queue.Processor.Bounces.{handle_failure_bounce, silent}
use sendry.Queue.Processor.Attempts.{Again, handle_failure-Again}

abbrev services : Services
services = record {
  send = λ m. (m.raw, some (simulated_error true (codes "try later")));
  is_temporary = λ err. true;
  parse = λ s. none;
  limits = none;
  generate_dsn = some (λ m error. some error);
}

abbrev config : ProcessorConfig
config = record {
  workers = 4;
  retry_interval = 300;
  max_retries = 5;
  process_interval = 10;
  dlq_enabled = true;
}

abbrev letter : Message
letter = record {
  id = codes "a";
  from = codes "u@x.org";
  to = codes "v@y.org" ∷ [];
  raw = [];
  status = status_sending;
  created_at = 1;
  updated_at = 1;
  next_retry_at = 0;
  retry_count = 1;
  last_error = [];
  client_ip = [];
  auth_user = [];
}

abbrev again_at : ℕ → Message
again_at t = record letter {
  status = status_deferred;
  updated_at = 3;
  next_retry_at = t;
  retry_count = 2;
  last_error = codes "try later";
}

abbrev one_db : Db sample
one_db = record {
  messages = (codes "a", json letter) ∷ [];
  pending = [];
  deferred = [];
  dead_letter = [];
}

abbrev failure : SendError
failure = simulated_error true (codes "try later")

process_one-Calls_example :
    Calls sample one_db (process_one sample services config 3 (codes "b") (one_db, [])).0
process_one-Calls_example = process_one-Calls sample services config 3 (codes "b") one_db []

handle_failure_bounce_example :
    (is_bounce_message letter ≡ true
      → handle_failure sample services config 3 (codes "b") failure letter one_db
        ≡ handle_failure sample (silent services) config 3 (codes "b") failure letter one_db)
    × ((t : ℕ) (id dsn : Text) (n : Message)
        → n.from ≡ (bounce_message t id letter dsn).from
        → is_bounce_message n ≡ true)
handle_failure_bounce_example =
    handle_failure_bounce sample services config 3 (codes "b") failure letter one_db

stores_again :
    lookup
      (codes "a")
      (handle_failure sample services config 3 (codes "b") failure letter one_db).messages
    ≡ some (json (again_at 603))
unfolding handle_failure update update_in_tx index_deferred lookup text_eq calculate_backoff
    add_duration shift_one make_index_key
stores_again = refl

handle_failure-Again_example : Again sample services config 3 failure letter (again_at 603)
unfolding lookup text_eq
handle_failure-Again_example =
    handle_failure-Again sample services config 3 (codes "b") failure letter (again_at 603) one_db
      (λ n g. ground (arith, g)) stores_again refl
