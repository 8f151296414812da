-- ===== src/Queue/Storage/NoneLost.antt =====
-- No operation of internal/queue/storage.go loses track of a message that waits.
use sendry.Base.{
  ℕ, ◌≡◌, ◌≢◌, refl, Bool-cases, Option, none, some, List, [], ◌∷◌, Text, inl, inr, Option-cases,
  ltb, ◌==◌, ◌&&◌, length, ◌-◌,
}
use sendry.Queue.Message.{Message, status_pending, status_deferred}
use sendry.Queue.Bolt.{Env}
use sendry.Queue.Storage.{Db, commit, enqueue, enqueue_batch, dequeue, dequeue_in_tx, update}
use sendry.Queue.Storage.Reading.{delete}
use sendry.Queue.Storage.DeadLetter.{move_to_dlq, retry_from_dlq, delete_from_dlq}
use sendry.Queue.Storage.Cleanup.{
  cleanup_delivered, cleanup_dlq, old_delivered, aged_items, surplus,
}
use sendry.Queue.Storage.Index.{IsIndexed, drop_message-IsIndexed}
use sendry.Queue.Storage.Loops.{dequeue-IsIndexed}
use sendry.Queue.Storage.Changes.{
  NoneDeferred, enqueue_in_tx-IsIndexed, enqueue_all-IsIndexed, update_in_tx-IsIndexed,
  delete_in_tx-IsIndexed, move_to_dlq_in_tx-IsIndexed, without_dead_letter-IsIndexed,
  retry_in_tx-IsIndexed, delete_messages-IsIndexed, delete_items-IsIndexed,
}

-- The calls that write to the database, each at its own time.
pub data Op : Type 0 where
  enqueues : Message → Op
  enqueues_batch : List (Option Message) → Op
  dequeues : Op
  updates : Message → Op
  deletes : Text → Op
  moves_to_dlq : Message → Op
  retries : Text → Op
  deletes_from_dlq : Text → Op
  cleans_delivered : ℕ → Op
  cleans_dlq : ℕ → ℕ → Op

-- What the callers keep to: a new message is not deferred, and no update makes one pending.
abbrev pub IsLawful : ℕ × Op → Type 0
IsLawful (now, enqueues m) = m.status ≢ status_deferred
IsLawful (now, enqueues_batch ms) = NoneDeferred ms
IsLawful (now, updates m) = m.status ≢ status_pending
IsLawful _ = Unit {0}

module _ (e : Env) where
  unfoldable pub step : ℕ × Op → Db e → Db e
  step (now, enqueues m) db = (enqueue e m db).1
  step (now, enqueues_batch ms) db = (enqueue_batch e ms db).1
  step (now, dequeues) db = (dequeue e now db).1
  step (now, updates m) db = (update e now m db).1
  step (now, deletes id) db = (delete e id db).1
  step (now, moves_to_dlq m) db = (move_to_dlq e now m db).1
  step (now, retries id) db = (retry_from_dlq e now id db).1
  step (now, deletes_from_dlq id) db = (delete_from_dlq e id db).1
  step (now, cleans_delivered age) db = (cleanup_delivered e age now db).1
  step (now, cleans_dlq age count) db = (cleanup_dlq e age count now db).1

  unfoldable pub run : List (ℕ × Op) → Db e → Db e
  run [] db = db
  run (o ∷ os) db = run os (step o db)

  abbrev pub Lawful : List (ℕ × Op) → Type 0
  Lawful [] = Unit {0}
  Lawful (o ∷ os) = IsLawful o × Lawful os

  abbrev pub empty_db : Db e
  empty_db = record {
    messages = e.msgs.empty;
    pending = e.index.empty;
    deferred = e.index.empty;
    dead_letter = e.index.empty;
  }

  -- A transaction that is rolled back keeps anything.
  commit-IsIndexed :
      (db : Db e) (o : Option (Db e))
      → ((db' : Db e) → o ≡ some db' → IsIndexed e db')
      → IsIndexed e db
      → IsIndexed e (commit e db o).1
  commit-IsIndexed db none h s = s
  commit-IsIndexed db (some db') h s = h db' refl

  dequeue_step : (now : ℕ) (db : Db e) → IsIndexed e db → IsIndexed e (dequeue e now db).1
  unfolding dequeue
  dequeue_step now db s = elim (Option-cases (dequeue_in_tx e now db)) [
    | inl h ↦ rw (h, dequeue) s
    | inr ((o, db'), h) ↦ rw (h, dequeue) (dequeue-IsIndexed e now db db' o h s)
  ]

  cleanup_delivered_step :
      (age now : ℕ) (db : Db e) → IsIndexed e db → IsIndexed e (cleanup_delivered e age now db).1
  unfolding cleanup_delivered
  cleanup_delivered_step age now db s = elim (Bool-cases (age == 0)) [
    | inl z ↦ rw (z, cleanup_delivered) s
    | inr z ↦
        rw (z, cleanup_delivered)
          (delete_messages-IsIndexed e (old_delivered age now (e.msgs.entries db.messages)) db s)
  ]

  cleanup_dlq_step :
      (age count now : ℕ) (db : Db e)
      → IsIndexed e db
      → IsIndexed e (cleanup_dlq e age count now db).1
  unfolding cleanup_dlq
  cleanup_dlq_step age count now db s =
      let items = e.index.entries db.dead_letter in
      let aged = aged_items e age now items in
      let remaining = length items - length aged in
      let s' = delete_items-IsIndexed e aged db s in
      elim (Bool-cases (ltb 0 count && ltb count remaining)) [
        | inl z ↦
            rw (z, cleanup_dlq)
              (delete_items-IsIndexed e (surplus aged (remaining - count) 0 items) _ s')
        | inr z ↦ rw (z, cleanup_dlq) s'
      ]

  -- Each call keeps the invariant of the indexes, whether it succeeds or fails.
  pub step-IsIndexed :
      (o : ℕ × Op) (db : Db e) → IsLawful o → IsIndexed e db → IsIndexed e (step o db)
  unfolding step enqueue enqueue_batch update delete move_to_dlq retry_from_dlq delete_from_dlq
  step-IsIndexed (now, enqueues m) db l s =
      commit-IsIndexed db _ (λ db' h. enqueue_in_tx-IsIndexed e m db db' l h s) s
  step-IsIndexed (now, enqueues_batch []) db l s = s
  step-IsIndexed (now, enqueues_batch (m ∷ ms)) db l s =
      commit-IsIndexed db _ (λ db' h. enqueue_all-IsIndexed e (m ∷ ms) db db' l h s) s
  step-IsIndexed (now, dequeues) db l s = dequeue_step now db s
  step-IsIndexed (now, updates m) db l s =
      commit-IsIndexed db _ (λ db' h. update_in_tx-IsIndexed e now m db db' l h s) s
  step-IsIndexed (now, deletes id) db l s = delete_in_tx-IsIndexed e id db s
  step-IsIndexed (now, moves_to_dlq m) db l s =
      commit-IsIndexed db _ (λ db' h. move_to_dlq_in_tx-IsIndexed e now m db db' h s) s
  step-IsIndexed (now, retries id) db l s =
      commit-IsIndexed db _ (λ db' h. retry_in_tx-IsIndexed e now id db db' h s) s
  step-IsIndexed (now, deletes_from_dlq id) db l s =
      drop_message-IsIndexed e _ id (without_dead_letter-IsIndexed e id db s)
  step-IsIndexed (now, cleans_delivered age) db l s = cleanup_delivered_step age now db s
  step-IsIndexed (now, cleans_dlq age count) db l s = cleanup_dlq_step age count now db s
