-- ===== src/Queue/Storage/Retries.antt =====
-- `RetryFromDLQ` of internal/queue/storage.go on any stored message.
use sendry.Base.{ℕ, ◌≡◌, ◌≢◌, true, none, some, Text, text_eq_refl, arith, >>=-eq-some}
use sendry.Queue.Message.{Message, json, status_failed, status_eq_iff}
use sendry.Queue.Bolt.{Env}
use sendry.Queue.Storage.{Db, make_index_key}
use sendry.Queue.Storage.DeadLetter.{
  retry_from_dlq, retry_from_dlq_in_tx, retry_found, get_from_dlq, renewed, without_dead_letter,
}

module _ (e : Env) where
  open e use {msgs, index}

  same_messages : (id : Text) (db : Db e) → (without_dead_letter e id db).messages ≡ db.messages
  unfolding without_dead_letter
  same_messages id db = ground arith

  -- A message whose status is not failed is not in the dead letter queue for GetFromDLQ, and yet a
  -- retry of it that succeeds puts it back into the pending queue with no retries counted, also if
  -- it has been delivered.
  pub retry_not_in_dlq :
      (now : ℕ) (id : Text) (m : Message) (db db' : Db e)
      → msgs.get db.messages id ≡ some (json m)
      → m.status ≢ status_failed
      → retry_from_dlq e now id db ≡ (true, db')
      → (get_from_dlq e id db ≡ some none)
        × (msgs.get db'.messages id ≡ some (json (renewed now m)))
        × (index.get db'.pending (make_index_key e now m.id) ≡ some m.id)
  unfolding get_from_dlq retry_from_dlq retry_from_dlq_in_tx retry_found
  retry_not_in_dlq now id m db db' g n q =
      let base = without_dead_letter e id db in
      let p : retry_found e now id m base ≡ some db' = ground (arith, g) in
      let (ms, r, p') = >>=-eq-some (msgs.put base.messages id (json (renewed now m))) _ p in
      let (ps, s, p'') =
        >>=-eq-some (index.put base.pending (make_index_key e now m.id) m.id) _ p' in
      let end_messages : db'.messages ≡ ms = ground (arith, p'') in
      let end_pending : db'.pending ≡ ps = ground (arith, p'') in
      (
        ground (arith, g, status_eq_iff m.status status_failed),
        ground (
          arith,
          end_messages,
          msgs.get-put base.messages ms id id (json (renewed now m)) r,
          text_eq_refl id,
        ),
        ground (
          arith,
          end_pending,
          index.get-put base.pending ps (make_index_key e now m.id) (make_index_key e now m.id) m.id
              s,
          text_eq_refl (make_index_key e now m.id),
        ),
      )
