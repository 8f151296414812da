-- ===== src/Queue/Storage/Lookups.antt =====
-- What can be read back after a write of internal/queue/storage.go.
use sendry.Base.{
  ℕ, ◌≡◌, refl, Option, none, some, List, [], ◌∷◌, Text, text_eq, inl, inr, arith, if◌then◌else◌,
  >>=-eq-some, Option-cases,
}
use sendry.Queue.Message.{
  Message, MessageStatus, Stored, json, status_pending, status_sending, status_delivered,
  status_failed, status_deferred, other,
}
use sendry.Queue.Bolt.{Env}
use sendry.Queue.Storage.{
  Db, make_index_key, enqueue_in_tx, enqueue_all, enqueue_batch, index_deferred, update_in_tx,
}

-- The last message of a batch with an id.
pub last_in : Text → List (Option Message) → Option Message
last_in k [] = none
last_in k (none ∷ ms) = last_in k ms
last_in k (some m ∷ ms) = elim (last_in k ms) [
  | some n ↦ some n
  | none ↦ if text_eq m.id k then some m else none
]

abbrev pub or_before : Option Message → Option Stored → Option Stored
or_before (some m) o = some (json m)
or_before none o = o

module _ (e : Env) where
  open e use {msgs, index}

  pub enqueue_in_tx-get :
      (m : Message) (db db' : Db e) (k : Text)
      → enqueue_in_tx e m db ≡ some db'
      → msgs.get db'.messages k ≡ (if text_eq m.id k then some (json m) else msgs.get db.messages k)
  unfolding enqueue_in_tx
  enqueue_in_tx-get m db db' k q =
      let (ms, p, q') = >>=-eq-some (msgs.put db.messages m.id (json m)) _ q in
      let (ps, r, q'') =
        >>=-eq-some (index.put db.pending (make_index_key e m.created_at m.id) m.id) _ q' in
      let same : db'.messages ≡ ms = ground (arith, q'') in
      ground (arith, same, msgs.get-put db.messages ms m.id k (json m) p)

  index_deferred-messages :
      (m : Message) (st : MessageStatus) (db db' : Db e)
      → m.status ≡ st
      → index_deferred e m db ≡ some db'
      → db'.messages ≡ db.messages
  unfolding index_deferred
  index_deferred-messages m status_deferred db db' h q =
      elim (Option-cases (index.put db.deferred (make_index_key e m.next_retry_at m.id) m.id)) [
        | inl p ↦ absurd (ground (arith, p, h))
        | inr (ds, p) ↦ ground (arith, p, h)
      ]
  index_deferred-messages m status_pending db db' h q = ground (arith, h)
  index_deferred-messages m status_sending db db' h q = ground (arith, h)
  index_deferred-messages m status_delivered db db' h q = ground (arith, h)
  index_deferred-messages m status_failed db db' h q = ground (arith, h)
  index_deferred-messages m (other s) db db' h q = ground (arith, h)

  pub update_in_tx-get :
      (now : ℕ) (m : Message) (db db' : Db e) (k : Text)
      → update_in_tx e now m db ≡ some db'
      → msgs.get db'.messages k ≡ (
          if text_eq m.id k
          then some (json (record m { updated_at = now }))
          else msgs.get db.messages k)
  unfolding update_in_tx
  update_in_tx-get now m db db' k q =
      let m' = record m { updated_at = now } in
      let (ms, p, q') = >>=-eq-some (msgs.put db.messages m.id (json m')) _ q in
      let same = index_deferred-messages m' m'.status (record db { messages = ms }) db' refl q' in
      ground (arith, same, msgs.get-put db.messages ms m.id k (json m') p)

  enqueue_all-get :
      (ms : List (Option Message)) (db db' : Db e) (k : Text)
      → enqueue_all e ms db ≡ some db'
      → msgs.get db'.messages k ≡ or_before (last_in k ms) (msgs.get db.messages k)
  unfolding enqueue_all last_in
  enqueue_all-get [] db db' k q = ground arith
  enqueue_all-get (none ∷ ms) db db' k q = enqueue_all-get ms db db' k q
  enqueue_all-get (some m ∷ ms) db db' k q = elim (Option-cases (enqueue_in_tx e m db)) [
    | inl p ↦ absurd (ground (arith, p))
    | inr (mid, p) ↦
        ground
          (arith, enqueue_all-get ms mid db' k (ground (arith, p)), enqueue_in_tx-get m db mid k p)
  ]

  -- A batch is stored as a whole or not at all: if EnqueueBatch fails the database is as before,
  -- and if it succeeds each id holds the last message of the batch with that id, or what it held
  -- before if there is none.
  enqueue_batch-get :
      (ms : List (Option Message)) (db : Db e) (k : Text)
      → let (done, db') = enqueue_batch e ms db in
        if done
        then msgs.get db'.messages k ≡ or_before (last_in k ms) (msgs.get db.messages k)
        else db' ≡ db
  unfolding enqueue_batch
  enqueue_batch-get [] db k = unfold last_in in refl
  enqueue_batch-get (m ∷ ms) db k = elim (Option-cases (enqueue_all e (m ∷ ms) db)) [
    | inl p ↦ rw (p, enqueue_batch) refl
    | inr (db', p) ↦ rw (p, enqueue_batch) (enqueue_all-get (m ∷ ms) db db' k p)
  ]
