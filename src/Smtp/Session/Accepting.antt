-- ===== src/Smtp/Session/Accepting.antt =====
-- What DATA of internal/smtp/session.go does to the queue.
use sendry.Base.{
  ℕ, ◌≡◌, inl, inr, refl, false, Option, none, some, Option-cases, Text, text_eq, text_eq_refl,
  >>=-eq-some, arith,
}
use sendry.Ratelimit.{Counters, Request}
use sendry.Ratelimit.Agreement.{allow-eq-check}
use sendry.Queue.Message.{Message, json}
use sendry.Queue.Bolt.{Env}
use sendry.Queue.Storage.{Db, make_index_key, enqueue, enqueue_in_tx}
use sendry.Queue.Storage.Lookups.{enqueue_in_tx-get}
use sendry.Smtp.Backend.{Backend, SmtpError, check_rate_limit}
use sendry.Smtp.Session.{Session, Parsers, accept, handle_data, received, limit_request}

module _ (e : Env) where
  open e use {msgs, index}

  -- A message has been queued: it is stored, it waits, and no other message has changed.
  pub record Queued (m : Message) (db db' : Db e) : Type 0 where
    pub is_stored : msgs.get db'.messages m.id ≡ some (json m)
    pub waits : index.get db'.pending (make_index_key e m.created_at m.id) ≡ some m.id
    pub others :
        (k : Text) → text_eq m.id k ≡ false → msgs.get db'.messages k ≡ msgs.get db.messages k

  enqueue-Queued : (m : Message) (db db' : Db e) → enqueue_in_tx e m db ≡ some db' → Queued m db db'
  unfolding enqueue_in_tx
  enqueue-Queued m db db' q =
      let get = enqueue_in_tx-get e m db db' in
      let key = make_index_key e m.created_at m.id in
      let (ms, p, q') = >>=-eq-some (msgs.put db.messages m.id (json m)) _ q in
      let (is, r, q'') = >>=-eq-some (index.put db.pending key m.id) _ q' in
      let same : db'.pending ≡ is = ground (arith, q'') in
      record {
        is_stored = ground (arith, get m.id q, text_eq_refl m.id);
        waits = ground (arith, same, index.get-put db.pending is key key m.id r, text_eq_refl key);
        others = λ k ne. ground (arith, get k q, ne);
      }

  -- What a client is told, and what has become of its message.
  abbrev pub Answered : Option SmtpError → Message → Db e → Db e → Type 0
  Answered none m db db' = Queued m db db'
  Answered (some err) m db db' = db' ≡ db

  accept-Answered :
      (now : ℕ) (new_id remote_addr bytes : Text) (s : Session) (db : Db e)
      → let (answer, db') = accept e now new_id remote_addr (some bytes) s db in
        Answered answer (received now new_id remote_addr bytes s) db db'
  unfolding accept enqueue
  accept-Answered now new_id remote_addr bytes s db =
      let m = received now new_id remote_addr bytes s in
      elim (Option-cases (enqueue_in_tx e m db)) [
        | inl h ↦ rw (h, accept, enqueue) refl
        | inr (db', h) ↦ rw (h, accept, enqueue) (enqueue-Queued m db db' h)
      ]

  -- The limiter answers, whatever the counters.
  check_rate_limit-answers :
      (b : Backend) (now : ℕ) (req : Request) (c : Counters)
      → (answer : Option SmtpError × Counters) × (check_rate_limit b now req c ≡ some answer)
  unfolding check_rate_limit
  check_rate_limit-answers b now req c = elim (Option-cases b.rate_limiter) [
    | inl h ↦ ((none, c), ground (arith, h))
    | inr (limits, h) ↦
        let (n, a, counts) = allow-eq-check limits now req c in
        elim (Option-cases (check_rate_limit b now req c)) [
          | inl p ↦ absurd (ground (arith, h, a, p))
          | inr (answer, p) ↦ (answer, p)
        ]
  ]

  -- DATA whose bytes can be read always gets an answer. If it is a positive one, the message is stored as the session
  -- describes it, with the bytes that were read, and waits in the pending index, and every other
  -- message is as before. If it is an error, the limiter's or one of the queue, the queue is as
  -- before.
  pub handle_data-Answered :
      (b : Backend) (ps : Parsers) (remote_addr : Text) (now : ℕ) (new_id bytes : Text)
      (s : Session) (db : Db e) (c : Counters)
      → (answer : Option SmtpError) × (db' : Db e) × (c' : Counters) × (handle_data e b ps
            remote_addr now new_id
            (some bytes)
            s
            (db, c)
          ≡ some (answer, (db', c')))
        × Answered answer (received now new_id remote_addr bytes s) db db'
  unfolding handle_data
  handle_data-Answered b ps remote_addr now new_id bytes s db c =
      let ((limited, c'), h) = check_rate_limit-answers b now (limit_request ps remote_addr s) c in
      go limited c' h
    where
      go :
          (limited : Option SmtpError) (c' : Counters)
          → check_rate_limit b now (limit_request ps remote_addr s) c ≡ some (limited, c')
          → (answer : Option SmtpError) × (db' : Db e) × (c' : Counters) × (handle_data e b ps
                remote_addr now new_id
                (some bytes)
                s
                (db, c)
              ≡ some (answer, (db', c')))
            × Answered answer (received now new_id remote_addr bytes s) db db'
      go (some err) c' h = (some err, db, c', ground (arith, h), refl)
      go none c' h =
          let r = accept e now new_id remote_addr (some bytes) s db in
          (r.0, r.1, c', ground (arith, h), accept-Answered now new_id remote_addr bytes s db)
