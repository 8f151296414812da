-- ===== src/Queue/Processor/Attempts.antt =====
-- How often internal/queue/processor.go tries a message again.
use sendry.Base.{
  ℕ, suc, ◌≡◌, ◌≢◌, ◌<◌, refl, Bool-cases, true, ◌&&◌, inl, inr, Option, none, some, Option-cases,
  Text, text_eq_refl, ltb, >>=-eq-some, arith,
}
use sendry.Queue.Message.{Message, json, SendError, error_text, status_deferred, status_failed}
use sendry.Queue.Bolt.{Env}
use sendry.Queue.Backoff.{calculate_backoff, add_duration}
use sendry.Queue.Storage.{Db, commit, update, update_in_tx, enqueue, enqueue_in_tx, make_index_key}
use sendry.Queue.Storage.Lookups.{enqueue_in_tx-get, update_in_tx-get}
use sendry.Queue.Storage.Reading.{delete, delete_in_tx}
use sendry.Queue.Storage.DeadLetter.{move_to_dlq, move_to_dlq_in_tx}
use sendry.Queue.Processor.{
  ProcessorConfig, Services, handle_failure, dispose, send_bounce, bounce_message,
  is_bounce_message, failed_once, given_up, rescheduled,
}

module _ (e : Env) where
  open e use {msgs, index}

  -- Nothing deferred stands under a key.
  abbrev pub Settled : Text → Db e → Type 0
  Settled k db = (n : Message) → msgs.get db.messages k ≡ some (json n) → n.status ≢ status_deferred

  commit-Settled :
      (k : Text) (db : Db e) (o : Option (Db e))
      → Settled k db
      → ((db' : Db e) → o ≡ some db' → Settled k db')
      → Settled k (commit e db o).1
  commit-Settled k db none h f = h
  commit-Settled k db (some db') h f = f db' refl

  update-Settled :
      (k : Text) (now : ℕ) (m : Message) (db : Db e)
      → m.status ≢ status_deferred
      → Settled k db
      → Settled k (update e now m db).1
  unfolding update
  update-Settled k now m db d h =
      commit-Settled k db (update_in_tx e now m db) h
        (λ db' q n g. ground (arith, update_in_tx-get e now m db db' k q, h n, d, g))

  enqueue-Settled :
      (k : Text) (m : Message) (db : Db e)
      → m.status ≢ status_deferred
      → Settled k db
      → Settled k (enqueue e m db).1
  unfolding enqueue
  enqueue-Settled k m db d h =
      commit-Settled k db (enqueue_in_tx e m db) h
        (λ db' q n g. ground (arith, enqueue_in_tx-get e m db db' k q, h n, d, g))

  delete-Settled : (k id : Text) (db : Db e) → Settled k db → Settled k (delete e id db).1
  unfolding delete delete_in_tx
  delete-Settled k id db h n g = ground (arith, msgs.get-delete db.messages id k, h n, g)

  move_to_dlq-Settled :
      (k : Text) (now : ℕ) (m : Message) (db : Db e)
      → Settled k db
      → Settled k (move_to_dlq e now m db).1
  unfolding move_to_dlq move_to_dlq_in_tx
  move_to_dlq-Settled k now m db h =
      commit-Settled k db (move_to_dlq_in_tx e now m db) h (λ db' q n g.
        let m' = record m { status = status_failed; updated_at = now } in
        let (ds, r, q') =
          >>=-eq-some (index.put db.dead_letter (make_index_key e now m.id) m.id) _ q in
        let (ms, p, q'') = >>=-eq-some (msgs.put db.messages m.id (json m')) _ q' in
        let same : db'.messages ≡ ms = ground (arith, q'') in
        ground (arith, same, msgs.get-put db.messages ms m.id k (json m') p, h n, g))

module _ (e : Env) (svc : Services) where
  open e use {msgs, index}

  dispose-Settled :
      (k : Text) (cfg : ProcessorConfig) (now : ℕ) (m : Message) (db : Db e)
      → m.status ≢ status_deferred
      → Settled e k db
      → Settled e k (dispose e svc cfg now m db)
  unfolding dispose
  dispose-Settled k cfg now m db d h = elim (Bool-cases cfg.dlq_enabled) [
    | inl on ↦ elim (Bool-cases (move_to_dlq e now m db).0) [
      | inl moved ↦ rw (on, moved) (move_to_dlq-Settled e k now m db h)
      | inr kept ↦ rw (on, kept) (update-Settled e k now m db d h)
    ]
    | inr off ↦ elim (Bool-cases (delete e m.id db).0) [
      | inl gone ↦ rw (off, gone) (delete-Settled e k m.id db h)
      | inr kept ↦ rw (off, kept) (update-Settled e k now m db d h)
    ]
  ]

  send_bounce-Settled :
      (k : Text) (now : ℕ) (new_id : Text) (m : Message) (error : Text) (db : Db e)
      → Settled e k db
      → Settled e k (send_bounce e svc now new_id m error db)
  unfolding send_bounce
  send_bounce-Settled k now new_id m error db h = elim (Option-cases svc.generate_dsn) [
    | inl off ↦ rw (off, send_bounce) h
    | inr (generate, on) ↦ elim (Bool-cases (is_bounce_message m)) [
      | inl bounce ↦ rw (on, bounce, send_bounce) h
      | inr plain ↦ elim (Option-cases (generate m error)) [
        | inl failed ↦ rw (on, plain, failed, send_bounce) h
        | inr (dsn, made) ↦
            rw (on, plain, made, send_bounce)
              (enqueue-Settled e k (bounce_message now new_id m dsn) db (λ q. cc) h)
      ]
    ]
  ]

  -- What a failed attempt may leave behind for a message.
  pub record Again (cfg : ProcessorConfig) (now : ℕ) (err : SendError) (m n : Message)
      : Type 0 where
    pub temporary : svc.is_temporary err ≡ true
    pub counted : n.retry_count ≡ suc m.retry_count
    pub below : n.retry_count < cfg.max_retries
    pub not_before :
        n.next_retry_at ≡ add_duration now (calculate_backoff cfg.retry_interval n.retry_count)
    pub reason : n.last_error ≡ error_text err

  -- When the handling of a failed attempt leaves a message deferred that was not, the error was a
  -- temporary one, the attempt has been counted and the count is below the limit of attempts, and
  -- the next one is due after the backoff for that count; the error stands in the message.
  pub handle_failure-Again :
      (cfg : ProcessorConfig) (now : ℕ) (new_id : Text) (err : SendError) (m n : Message)
      (db : Db e)
      → Settled e m.id db
      → msgs.get (handle_failure e svc cfg now new_id err m db).messages m.id ≡ some (json n)
      → n.status ≡ status_deferred
      → Again cfg now err m n
  unfolding handle_failure update
  handle_failure-Again cfg now new_id err m n db h g d =
      let m' = failed_once e svc now err m in
      elim (Bool-cases (svc.is_temporary err && ltb m'.retry_count cfg.max_retries)) [
        | inr over ↦ absurd (
            dispose-Settled m.id cfg now (given_up e svc m')
              (send_bounce e svc now new_id (given_up e svc m') (error_text err) db) (λ q. cc)
              (send_bounce-Settled m.id now new_id (given_up e svc m') (error_text err) db h) n
              (ground (arith, over, g)) d)
        | inl again ↦
            let m'' = rescheduled e svc cfg now m' in
            elim (Option-cases (update_in_tx e now m'' db)) [
              | inl p ↦ absurd (h n (ground (arith, again, p, g)) d)
              | inr (db', p) ↦
                  let stored : n ≡ record m'' { updated_at = now } = ground (
                    arith,
                    update_in_tx-get e now m'' db db' m.id p,
                    text_eq_refl m.id,
                    again,
                    p,
                    g,
                  ) in
                  record {
                    temporary = ground (arith, again);
                    counted = ground (arith, stored);
                    below = ground (arith, again, stored);
                    not_before = ground (arith, stored);
                    reason = ground (arith, stored);
                  }
            ]
      ]
