-- ===== src/Queue/Storage/Changes.antt =====
-- The transactions of internal/queue/storage.go and the invariant of the indexes.
use sendry.Base.{
  ℕ, ◌≡◌, ◌≢◌, refl, Option, none, some, List, [], ◌∷◌, Text, text_eq_iff, text_eq_refl, inl, inr,
  arith, >>=-eq-some, Option-cases,
}
use sendry.Queue.Message.{
  Message, json, status_pending, status_deferred, status_failed, MessageStatus, Stored-cases,
}
use sendry.Queue.Bolt.{Env}
use sendry.Queue.Storage.{
  Db, make_index_key, enqueue_in_tx, enqueue_all, update_in_tx, index_deferred,
}
use sendry.Queue.Storage.Reading.{delete_in_tx}
use sendry.Queue.Storage.DeadLetter.{
  move_to_dlq_in_tx, retry_from_dlq_in_tx, without_dead_letter, renewed, key_of, retry_found,
}
use sendry.Queue.Storage.Cleanup.{delete_messages, delete_items}
use sendry.Queue.Storage.Index.{
  IsIndexed, put_pending-IsIndexed, put_deferred-IsIndexed, put_message-IsIndexed,
  drop_message-IsIndexed, drop_pending-IsIndexed, drop_deferred-IsIndexed,
  with_dead_letter-IsIndexed,
}

abbrev pub NoneDeferred : List (Option Message) → Type 0
NoneDeferred [] = Unit {0}
NoneDeferred (none ∷ ms) = NoneDeferred ms
NoneDeferred (some m ∷ ms) = (m.status ≢ status_deferred) × NoneDeferred ms

module _ (e : Env) where
  open e use {msgs, index}

  pub enqueue_in_tx-IsIndexed :
      (m : Message) (db db' : Db e)
      → m.status ≢ status_deferred
      → enqueue_in_tx e m db ≡ some db'
      → IsIndexed e db
      → IsIndexed e db'
  unfolding enqueue_in_tx
  enqueue_in_tx-IsIndexed m db db' n q s =
      let (ms, p, q') = >>=-eq-some (msgs.put db.messages m.id (json m)) _ q in
      let (ps, r, q'') =
        >>=-eq-some (index.put db.pending (make_index_key e m.created_at m.id) m.id) _ q' in
      let same : record db { messages = ms; pending = ps } ≡ db' = ground (arith, q'') in
      rw (← same) (
        put_message-IsIndexed e (record db { pending = ps }) m ms p
          (λ _. (
            m.created_at,
            ground (
              arith,
              index.get-put db.pending ps (make_index_key e m.created_at m.id)
                  (make_index_key e m.created_at m.id) m.id r,
              text_eq_refl (make_index_key e m.created_at m.id),
            ),
          ))
          (λ d. absurd (n d)) (put_pending-IsIndexed e db m.created_at m.id ps r s))

  pub enqueue_all-IsIndexed :
      (ms : List (Option Message)) (db db' : Db e)
      → NoneDeferred ms
      → enqueue_all e ms db ≡ some db'
      → IsIndexed e db
      → IsIndexed e db'
  unfolding enqueue_all
  enqueue_all-IsIndexed [] db db' n q s = let same : db ≡ db' = ground arith in rw (← same) s
  enqueue_all-IsIndexed (none ∷ ms) db db' n q s = enqueue_all-IsIndexed ms db db' n q s
  enqueue_all-IsIndexed (some m ∷ ms) db db' n q s = elim (Option-cases (enqueue_in_tx e m db)) [
    | inl p ↦ absurd (ground (arith, p))
    | inr (mid, p) ↦
        enqueue_all-IsIndexed ms mid db' n.1 (ground (arith, p))
          (enqueue_in_tx-IsIndexed m db mid n.0 p s)
  ]

  index_deferred-IsIndexed :
      (m : Message) (st : MessageStatus) (db db' : Db e) (ms : msgs.Carrier)
      → m.status ≡ st
      → m.status ≢ status_pending
      → msgs.put db.messages m.id (json m) ≡ some ms
      → index_deferred e m (record db { messages = ms }) ≡ some db'
      → IsIndexed e db
      → IsIndexed e db'
  unfolding index_deferred
  index_deferred-IsIndexed m status_deferred db db' ms h n p q s =
      elim (Option-cases (index.put db.deferred (make_index_key e m.next_retry_at m.id) m.id)) [
        | inl r ↦ absurd (ground (arith, r))
        | inr (ds, r) ↦
            let same : record db { messages = ms; deferred = ds } ≡ db' = ground (arith, r) in
            rw (← same) (
              put_message-IsIndexed e (record db { deferred = ds }) m ms p (λ d. absurd (n d))
                (λ _. (
                  m.next_retry_at,
                  ground (
                    arith,
                    index.get-put db.deferred ds (make_index_key e m.next_retry_at m.id)
                        (make_index_key e m.next_retry_at m.id) m.id r,
                    text_eq_refl (make_index_key e m.next_retry_at m.id),
                  ),
                ))
                (put_deferred-IsIndexed e db m.next_retry_at m.id ds r s))
      ]
  index_deferred-IsIndexed m st db db' ms h n p q s =
      let same : record db { messages = ms } ≡ db' = ground arith in
      rw (← same) (put_message-IsIndexed e db m ms p (λ d. absurd (n d)) (λ d. cc) s)

  pub update_in_tx-IsIndexed :
      (now : ℕ) (m : Message) (db db' : Db e)
      → m.status ≢ status_pending
      → update_in_tx e now m db ≡ some db'
      → IsIndexed e db
      → IsIndexed e db'
  unfolding update_in_tx
  update_in_tx-IsIndexed now m db db' n q s =
      let m' = record m { updated_at = now } in
      let (ms, p, q') = >>=-eq-some (msgs.put db.messages m.id (json m')) _ q in
      index_deferred-IsIndexed m' m.status db db' ms refl n p q' s

  gone :
      (id : Text) (db : Db e) (m n : Message)
      → IsIndexed e db
      → msgs.get db.messages id ≡ some (json m)
      → msgs.get (msgs.delete db.messages id) m.id ≢ some (json n)
  gone id db m n s h g =
      ground (arith, s.own_key id m h, msgs.get-delete db.messages id m.id, text_eq_iff id m.id)

  pub delete_in_tx-IsIndexed :
      (id : Text) (db : Db e) → IsIndexed e db → IsIndexed e (delete_in_tx e id db)
  unfolding delete_in_tx
  delete_in_tx-IsIndexed id db s = elim (Stored-cases (msgs.get db.messages id)) [
    | inl h ↦ rw (h, delete_in_tx) (drop_message-IsIndexed e db id s)
    | inr (inl (b, h)) ↦ rw (h, delete_in_tx) (drop_message-IsIndexed e db id s)
    | inr (inr (m, h)) ↦
        rw (h, delete_in_tx)
          (drop_deferred-IsIndexed e _ (make_index_key e m.next_retry_at m.id) m.id
            (s.deferred_names m.next_retry_at m.id) (λ n g. absurd (gone id db m n s h g))
            (drop_pending-IsIndexed e _ (make_index_key e m.created_at m.id) m.id
              (s.pending_names m.created_at m.id) (λ n g. absurd (gone id db m n s h g))
              (drop_message-IsIndexed e db id s)))
  ]

  pub move_to_dlq_in_tx-IsIndexed :
      (now : ℕ) (m : Message) (db db' : Db e)
      → move_to_dlq_in_tx e now m db ≡ some db'
      → IsIndexed e db
      → IsIndexed e db'
  unfolding move_to_dlq_in_tx
  move_to_dlq_in_tx-IsIndexed now m db db' q s =
      let (ds, p, q') =
        >>=-eq-some (index.put db.dead_letter (make_index_key e now m.id) m.id) _ q in
      let m' = record m { status = status_failed; updated_at = now } in
      let (ms, r, q'') = >>=-eq-some (msgs.put db.messages m.id (json m')) _ q' in
      let same : record db { dead_letter = ds; messages = ms } ≡ db' = ground (arith, q'') in
      rw (← same) (
        put_message-IsIndexed e (record db { dead_letter = ds }) m' ms r (λ d. cc) (λ d. cc)
          (with_dead_letter-IsIndexed e db ds s))

  pub without_dead_letter-IsIndexed :
      (id : Text) (db : Db e) → IsIndexed e db → IsIndexed e (without_dead_letter e id db)
  unfolding without_dead_letter
  without_dead_letter-IsIndexed id db s =
      elim (Option-cases (key_of id (index.entries db.dead_letter))) [
        | inl h ↦ rw (h, without_dead_letter) s
        | inr (k, h) ↦ rw (h, without_dead_letter) (with_dead_letter-IsIndexed e db _ s)
      ]

  retry_found-IsIndexed :
      (now : ℕ) (m : Message) (db db' : Db e)
      → retry_found e now m.id m db ≡ some db'
      → IsIndexed e db
      → IsIndexed e db'
  unfolding retry_found
  retry_found-IsIndexed now m db db' q s =
      let (ms, p, q') = >>=-eq-some (msgs.put db.messages m.id (json (renewed now m))) _ q in
      let (ps, r, q'') = >>=-eq-some (index.put db.pending (make_index_key e now m.id) m.id) _ q' in
      let same : record db { messages = ms; pending = ps } ≡ db' = ground (arith, q'') in
      rw (← same) (
        put_message-IsIndexed e (record db { pending = ps }) (renewed now m) ms p
          (λ _. (
            now,
            ground (
              arith,
              index.get-put db.pending ps (make_index_key e now m.id) (make_index_key e now m.id)
                  m.id r,
              text_eq_refl (make_index_key e now m.id),
            ),
          ))
          (λ d. cc) (put_pending-IsIndexed e db now m.id ps r s))

  pub retry_in_tx-IsIndexed :
      (now : ℕ) (id : Text) (db db' : Db e)
      → retry_from_dlq_in_tx e now id db ≡ some db'
      → IsIndexed e db
      → IsIndexed e db'
  unfolding retry_from_dlq_in_tx
  retry_in_tx-IsIndexed now id db db' q s = elim (Stored-cases (msgs.get db.messages id)) [
    | inl h ↦ absurd (ground (arith, h))
    | inr (inl (b, h)) ↦ absurd (ground (arith, h))
    | inr (inr (m, h)) ↦
        retry_found-IsIndexed now m (without_dead_letter e id db) db'
          (ground (arith, h, s.own_key id m h)) (without_dead_letter-IsIndexed id db s)
  ]

  pub delete_messages-IsIndexed :
      (ks : List Text) (db : Db e)
      → IsIndexed e db
      → IsIndexed e (record db { messages = delete_messages e ks db.messages })
  unfolding delete_messages
  delete_messages-IsIndexed [] db s = s
  delete_messages-IsIndexed (k ∷ ks) db s =
      delete_messages-IsIndexed ks (record db { messages = msgs.delete db.messages k })
        (drop_message-IsIndexed e db k s)

  pub delete_items-IsIndexed :
      (items : List (Text × Text)) (db : Db e)
      → IsIndexed e db
      → IsIndexed e (delete_items e items db)
  unfolding delete_items
  delete_items-IsIndexed [] db s = s
  delete_items-IsIndexed ((k, v) ∷ items) db s = delete_items-IsIndexed items _ (
      with_dead_letter-IsIndexed e _ (index.delete db.dead_letter k)
        (drop_message-IsIndexed e db v s))
