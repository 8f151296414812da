-- ===== src/Queue/Storage.antt =====
-- internal/queue/storage.go. A transaction is a function into `Option`: `none` is a returned error,
-- on which bbolt rolls back. A cursor runs through the entries that the bucket has when the loop
-- starts. `time.Now()` is an argument. Opening and closing the file is not modelled.
pub mod DeadLetter
pub mod Cleanup
pub mod Reading
mod Index
mod Loops
mod Changes
pub mod Lookups
pub mod NoneLost
mod Keys
pub mod Dequeues
pub mod Retention
pub mod Retries
pub mod Paging
mod Tests
use sendry.Base.{
  ℕ, suc, ◌+◌, ◌-◌, Bool, true, false, not, ◌&&◌, ◌||◌, Option, none, some, List, [], ◌∷◌, ◌++◌,
  Text, text_eq, is_empty, any, length, drop, ltb, leb, ◌==◌, if◌then◌else◌, ◌>>=◌,
}
use sendry.Queue.Message.{
  Message, MessageStatus, Stored, json, corrupted, status_pending, status_sending, status_delivered,
  status_failed, status_deferred, other, status_eq,
}
use sendry.Queue.Bolt.{BucketApi, Env}

-- `s[:i]` for the last `i` at which `s` has a ':', as the loop that counts down finds it.
pub before_last_colon : Text → Option Text
before_last_colon [] = none
before_last_colon (c ∷ s) = elim (before_last_colon s) [
  | some p ↦ some (c ∷ p)
  | none ↦ if c == b':' then some [] else none
]

pub record ListFilter : Type 0 where
  pub filter_status : MessageStatus
  pub filter_limit : ℕ
  pub filter_offset : ℕ

pub record QueueStats : Type 0 where
  pub pending : ℕ
  pub sending : ℕ
  pub delivered : ℕ
  pub failed : ℕ
  pub deferred : ℕ
  pub total : ℕ

module _ (e : Env) where
  open e use {msgs, index, format, parse}

  pub record Db : Type 0 where
    pub messages : msgs.Carrier
    pub pending : index.Carrier
    pub deferred : index.Carrier
    pub dead_letter : index.Carrier

  unfoldable pub make_index_key : ℕ → Text → Text
  make_index_key t id = format t ++ (b':' ∷ id)

  -- 0 is the zero time of a key with no ':' in it.
  unfoldable pub parse_timestamp_from_key : Text → ℕ
  parse_timestamp_from_key key = elim (before_last_colon key) [ none ↦ 0 | some s ↦ parse s ]

  -- db.Update: a transaction that returns an error leaves the database as it was.
  abbrev pub commit : Db → Option Db → Bool × Db
  commit db none = (false, db)
  commit db (some db') = (true, db')

  unfoldable pub enqueue_in_tx : Message → Db → Option Db
  enqueue_in_tx m db = do
    ms ← msgs.put db.messages m.id (json m)
    ps ← index.put db.pending (make_index_key m.created_at m.id) m.id
    some (record db { messages = ms; pending = ps })

  unfoldable pub enqueue : Message → Db → Bool × Db
  enqueue m db = commit db (enqueue_in_tx m db)

  -- A nil message of a batch is skipped.
  unfoldable pub enqueue_all : List (Option Message) → Db → Option Db
  enqueue_all [] db = some db
  enqueue_all (none ∷ ms) db = enqueue_all ms db
  enqueue_all (some m ∷ ms) db = elim (enqueue_in_tx m db) [
    | none ↦ none
    | some db' ↦ enqueue_all ms db'
  ]

  unfoldable pub enqueue_batch : List (Option Message) → Db → Bool × Db
  enqueue_batch ms db = if is_empty ms then (true, db) else commit db (enqueue_all ms db)

  abbrev pub as_sending : ℕ → Message → Message
  as_sending now m = record m { status = status_sending; updated_at = now }

  abbrev pub without_deferred : Text → Db → Db
  without_deferred k db = record db { deferred = index.delete db.deferred k }

  abbrev pub without_pending : Text → Db → Db
  without_pending k db = record db { pending = index.delete db.pending k }

  -- A message that is found is marked, stored under its own id, and returned.
  abbrev pub start_sending : ℕ → Message → Db → Option (Option Message × Db)
  start_sending now m db = do
    ms ← msgs.put db.messages m.id (json (as_sending now m))
    some (some (as_sending now m), record db { messages = ms })

  -- The loop over the deferred messages: `some (none, db)` if it ends with no message.
  unfoldable pub deferred_loop : ℕ → List (Text × Text) → Db → Option (Option Message × Db)
  deferred_loop now [] db = some (none, db)
  deferred_loop now ((k, v) ∷ rest) db =
      let later = deferred_loop now rest (without_deferred k db) in
      if ltb now (parse_timestamp_from_key k)
      then some (none, db)
      else elim (msgs.get db.messages v) [
        | some (json m) ↦ start_sending now m (without_deferred k db)
        | _ ↦ later
      ]

  unfoldable pub pending_loop : ℕ → List (Text × Text) → Db → Option (Option Message × Db)
  pending_loop now [] db = some (none, db)
  pending_loop now ((k, v) ∷ rest) db =
      let later = pending_loop now rest (without_pending k db) in
      elim (msgs.get db.messages v) [
        | some (json m) ↦ start_sending now m (without_pending k db)
        | _ ↦ later
      ]

  then_pending : ℕ → Option Message × Db → Option (Option Message × Db)
  then_pending now (some m, db) = some (some m, db)
  then_pending now (none, db) = pending_loop now (index.entries db.pending) db

  unfoldable pub dequeue_in_tx : ℕ → Db → Option (Option Message × Db)
  unfolding then_pending
  dequeue_in_tx now db = deferred_loop now (index.entries db.deferred) db >>= then_pending now

  -- Dequeue. The first component is `none` where an error is returned.
  unfoldable pub dequeue : ℕ → Db → Option (Option Message) × Db
  dequeue now db = elim (dequeue_in_tx now db) [ none ↦ (none, db) | some (m, db') ↦ (some m, db') ]

  unfoldable pub index_deferred : Message → Db → Option Db
  index_deferred m db = elim m.status [
    | status_deferred ↦ do
      ds ← index.put db.deferred (make_index_key m.next_retry_at m.id) m.id
      some (record db { deferred = ds })
    | _ ↦ some db
  ]

  unfoldable pub update_in_tx : ℕ → Message → Db → Option Db
  unfolding index_deferred
  update_in_tx now m db = do
    let m' = record m { updated_at = now }
    ms ← msgs.put db.messages m.id (json m')
    index_deferred m' (record db { messages = ms })

  unfoldable pub update : ℕ → Message → Db → Bool × Db
  update now m db = commit db (update_in_tx now m db)

  -- Get: the outer `none` is the error of `json.Unmarshal`.
  unfoldable pub get_message : Text → Db → Option (Option Message)
  get_message id db = elim (msgs.get db.messages id) [
    | none ↦ some none
    | some (json m) ↦ some (some m)
    | some (corrupted b) ↦ none
  ]
