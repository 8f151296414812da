-- ===== src/Queue/Processor/Outcome.antt =====
-- What `processOne` of internal/queue/processor.go does to the database.
use sendry.Base.{
  ℕ, ◌≡◌, ◌≢◌, refl, ap, ◌∙◌, Bool-cases, ◌&&◌, inl, inr, Option, none, some, Option-cases, List,
  [], ◌∷◌, ◌++◌, Text, ltb, ◌⊎◌,
}
use sendry.Ratelimit.{Counters}
use sendry.Queue.Message.{Message, SendError, error_text, status_pending}
use sendry.Queue.Bolt.{Env}
use sendry.Queue.Storage.{Db, dequeue, update}
use sendry.Queue.Storage.Reading.{delete}
use sendry.Queue.Storage.DeadLetter.{move_to_dlq}
use sendry.Queue.Storage.NoneLost.{
  Op, enqueues, dequeues, updates, deletes, moves_to_dlq, IsLawful, Lawful, step, run,
}
use sendry.Queue.Processor.{
  ProcessorConfig, Services, process_one, process_message, handle_failure, dispose, send_bounce,
  check_limits, bounce_message, is_bounce_message, failed_once, given_up, rescheduled, limited,
  delivered,
}

found-cases :
    (o : Option (Option Message))
    → (o ≡ none) ⊎ ((o ≡ some none) ⊎ ((m : Message) × (o ≡ some (some m))))
found-cases none = inl refl
found-cases (some none) = inr (inl refl)
found-cases (some (some m)) = inr (inr (m, refl))

module _ (e : Env) where
  -- One state comes from another by lawful calls of the storage.
  abbrev pub Calls : Db e → Db e → Type 0
  Calls db db' = (ops : List (ℕ × Op)) × Lawful e ops × (run e ops db ≡ db')

  run-append : (xs ys : List (ℕ × Op)) (db : Db e) → run e (xs ++ ys) db ≡ run e ys (run e xs db)
  unfolding run
  run-append [] ys db = refl
  run-append (x ∷ xs) ys db = run-append xs ys (step e x db)

  Lawful-append : (xs ys : List (ℕ × Op)) → Lawful e xs → Lawful e ys → Lawful e (xs ++ ys)
  Lawful-append [] ys hx hy = hy
  Lawful-append (x ∷ xs) ys hx hy = (hx.0, Lawful-append xs ys hx.1 hy)

  Calls-none : (db : Db e) → Calls db db
  unfolding run
  Calls-none db = ([], tt, refl)

  Calls-one : (o : ℕ × Op) (db : Db e) → IsLawful o → Calls db (step e o db)
  unfolding run
  Calls-one o db l = (o ∷ [], (l, tt), refl)

  Calls-trans : (a b c : Db e) → Calls a b → Calls b c → Calls a c
  Calls-trans a b c (xs, lx, px) (ys, ly, py) =
      (xs ++ ys, Lawful-append xs ys lx ly, run-append xs ys a ∙ (ap (run e ys) px ∙ py))

  update-Calls :
      (now : ℕ) (m : Message) (db : Db e)
      → m.status ≢ status_pending
      → Calls db (update e now m db).1
  unfolding step
  update-Calls now m db n = Calls-one (now, updates m) db n

module _ (e : Env) (svc : Services) where
  dispose-Calls :
      (cfg : ProcessorConfig) (now : ℕ) (m : Message) (db : Db e)
      → m.status ≢ status_pending
      → Calls e db (dispose e svc cfg now m db)
  unfolding dispose step
  dispose-Calls cfg now m db n = elim (Bool-cases cfg.dlq_enabled) [
    | inl on ↦ elim (Bool-cases (move_to_dlq e now m db).0) [
      | inl moved ↦ rw (on, moved) (Calls-one e (now, moves_to_dlq m) db tt)
      | inr kept ↦ rw (on, kept) (update-Calls e now m db n)
    ]
    | inr off ↦ elim (Bool-cases (delete e m.id db).0) [
      | inl gone ↦ rw (off, gone) (Calls-one e (now, deletes m.id) db tt)
      | inr kept ↦ rw (off, kept) (update-Calls e now m db n)
    ]
  ]

  send_bounce-Calls :
      (now : ℕ) (new_id : Text) (m : Message) (error : Text) (db : Db e)
      → Calls e db (send_bounce e svc now new_id m error db)
  unfolding send_bounce step
  send_bounce-Calls now new_id m error db = elim (Option-cases svc.generate_dsn) [
    | inl off ↦ rw (off, send_bounce) (Calls-none e db)
    | inr (generate, on) ↦ elim (Bool-cases (is_bounce_message m)) [
      | inl bounce ↦ rw (on, bounce, send_bounce) (Calls-none e db)
      | inr plain ↦ elim (Option-cases (generate m error)) [
        | inl failed ↦ rw (on, plain, failed, send_bounce) (Calls-none e db)
        | inr (dsn, made) ↦
            rw (on, plain, made, send_bounce)
              (Calls-one e (now, enqueues (bounce_message now new_id m dsn)) db (λ q. cc))
      ]
    ]
  ]

  handle_failure-Calls :
      (cfg : ProcessorConfig) (now : ℕ) (new_id : Text) (err : SendError) (m : Message) (db : Db e)
      → Calls e db (handle_failure e svc cfg now new_id err m db)
  unfolding handle_failure
  handle_failure-Calls cfg now new_id err m db =
      let m' = failed_once e svc now err m in
      let db' = send_bounce e svc now new_id (given_up e svc m') (error_text err) db in
      elim (Bool-cases (svc.is_temporary err && ltb m'.retry_count cfg.max_retries)) [
        | inl again ↦ rw again (update-Calls e now (rescheduled e svc cfg now m') db (λ q. cc))
        | inr over ↦ rw over (
            Calls-trans e db db' _
              (send_bounce-Calls now new_id (given_up e svc m') (error_text err) db)
              (dispose-Calls cfg now (given_up e svc m') db' (λ q. cc)))
      ]

  process_message-Calls :
      (cfg : ProcessorConfig) (now : ℕ) (new_id : Text) (m : Message) (db : Db e) (c : Counters)
      → Calls e db (process_message e svc cfg now new_id m (db, c)).0
  unfolding process_message
  process_message-Calls cfg now new_id m db c =
      let m' = record m { raw = (svc.send m).0 } in
      elim (Option-cases (check_limits e svc now m c).0) [
        | inr (l, over) ↦
            rw (over, process_message) (update-Calls e now (limited e svc now l m) db (λ q. cc))
        | inl under ↦ elim (Option-cases (svc.send m).1) [
          | inl sent ↦
              rw (under, sent, process_message)
                (update-Calls e now (delivered e svc now m') db (λ q. cc))
          | inr (err, failed) ↦
              rw (under, failed, process_message) (handle_failure-Calls cfg now new_id err m' db)
        ]
      ]

  -- A round of a worker, on whatever branch it ends and whichever calls fail, is a sequence of calls
  -- of the storage that keep to its rules: no new message is deferred, and no update makes one
  -- pending.
  pub process_one-Calls :
      (cfg : ProcessorConfig) (now : ℕ) (new_id : Text) (db : Db e) (c : Counters)
      → Calls e db (process_one e svc cfg now new_id (db, c)).0
  unfolding process_one step
  process_one-Calls cfg now new_id db c =
      let first = Calls-one e (now, dequeues) db tt in
      elim (found-cases (dequeue e now db).0) [
        | inl h ↦ rw (h, process_one) first
        | inr (inl h) ↦ rw (h, process_one) first
        | inr (inr (m, h)) ↦
            rw (h, process_one)
              (Calls-trans e db (dequeue e now db).1 _ first
                (process_message-Calls cfg now new_id m (dequeue e now db).1 c))
      ]
