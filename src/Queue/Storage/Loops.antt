-- ===== src/Queue/Storage/Loops.antt =====
-- The two loops of `Dequeue` of internal/queue/storage.go keep the invariant of the indexes.
use sendry.Base.{
  ℕ, ◌≡◌, Bool-cases, Option, none, some, List, [], ◌∷◌, All, Text, text_eq_iff, inl, inr, arith,
  ltb, >>=-eq-some, Option-cases,
}
use sendry.Queue.Message.{Message, json, Stored-cases}
use sendry.Queue.Bolt.{Env}
use sendry.Queue.Storage.{
  Db, parse_timestamp_from_key, without_pending, without_deferred, start_sending, as_sending,
  deferred_loop, pending_loop, dequeue_in_tx, then_pending,
}
use sendry.Queue.Storage.Index.{
  IsIndexed, put_message-IsIndexed, drop_pending-IsIndexed, drop_deferred-IsIndexed,
}

module _ (e : Env) where
  open e use {msgs, index}

  -- Every entry that a cursor has still to visit names what its key holds, if it holds anything.
  abbrev Names : index.Carrier → List (Text × Text) → Type 0
  Names b es = All (λ p. (v : Text) → index.get b p.0 ≡ some v → v ≡ p.1) es

  entries-Names :
      (b : index.Carrier) (es : List (Text × Text))
      → All (λ p. index.get b p.0 ≡ some p.1) es
      → Names b es
  entries-Names b [] a = tt
  entries-Names b ((k, v) ∷ es) a = (λ w h. ground (arith, a.0), entries-Names b es a.1)

  delete-Names :
      (b : index.Carrier) (key : Text) (es : List (Text × Text))
      → Names b es
      → Names (index.delete b key) es
  delete-Names b key [] a = tt
  delete-Names b key ((k, v) ∷ es) a =
      (λ w h. a.0 w (ground (arith, index.get-delete b key k)), delete-Names b key es a.1)

  -- Marking the message behind a key and dropping the key, in both orders of the two buckets.
  pending_taken :
      (now : ℕ) (k v : Text) (m : Message) (db : Db e) (ms : msgs.Carrier)
      → ((w : Text) → index.get db.pending k ≡ some w → w ≡ v)
      → msgs.get db.messages v ≡ some (json m)
      → msgs.put db.messages m.id (json (as_sending e now m)) ≡ some ms
      → IsIndexed e db
      → IsIndexed e (record db { messages = ms; pending = index.delete db.pending k })
  pending_taken now k v m db ms names g p s =
      drop_pending-IsIndexed e (record db { messages = ms }) k v names
        (λ n h q. ground (
          arith,
          msgs.get-put db.messages ms m.id v (json (as_sending e now m)) p,
          text_eq_iff m.id v,
          s.own_key v m g,
        ))
        (put_message-IsIndexed e db (as_sending e now m) ms p (λ q. cc) (λ q. cc) s)

  deferred_taken :
      (now : ℕ) (k v : Text) (m : Message) (db : Db e) (ms : msgs.Carrier)
      → ((w : Text) → index.get db.deferred k ≡ some w → w ≡ v)
      → msgs.get db.messages v ≡ some (json m)
      → msgs.put db.messages m.id (json (as_sending e now m)) ≡ some ms
      → IsIndexed e db
      → IsIndexed e (record db { messages = ms; deferred = index.delete db.deferred k })
  deferred_taken now k v m db ms names g p s =
      drop_deferred-IsIndexed e (record db { messages = ms }) k v names
        (λ n h q. ground (
          arith,
          msgs.get-put db.messages ms m.id v (json (as_sending e now m)) p,
          text_eq_iff m.id v,
          s.own_key v m g,
        ))
        (put_message-IsIndexed e db (as_sending e now m) ms p (λ q. cc) (λ q. cc) s)

  pending_loop_step :
      (now : ℕ) (k v : Text) (m : Message) (db db' : Db e) (o : Option Message)
      → ((w : Text) → index.get db.pending k ≡ some w → w ≡ v)
      → msgs.get db.messages v ≡ some (json m)
      → start_sending e now m (without_pending e k db) ≡ some (o, db')
      → IsIndexed e db
      → IsIndexed e db'
  pending_loop_step now k v m db db' o names g q s =
      elim (Option-cases (msgs.put db.messages m.id (json (as_sending e now m)))) [
        | inl p ↦ absurd (ground (arith, p))
        | inr (ms, p) ↦
            let same : record db { messages = ms; pending = index.delete db.pending k } ≡ db' =
              ground (arith, p) in
            rw (← same) (pending_taken now k v m db ms names g p s)
      ]

  pub pending_loop-IsIndexed :
      (now : ℕ) (es : List (Text × Text)) (db db' : Db e) (o : Option Message)
      → Names db.pending es
      → pending_loop e now es db ≡ some (o, db')
      → IsIndexed e db
      → IsIndexed e db'
  unfolding pending_loop
  pending_loop-IsIndexed now [] db db' o a q s = let same : db ≡ db' = ground arith in rw (← same) s
  pending_loop-IsIndexed now ((k, v) ∷ es) db db' o a q s =
      let a' = delete-Names db.pending k es a.1 in
      elim (Stored-cases (msgs.get db.messages v)) [
        | inl h ↦
            pending_loop-IsIndexed now es (without_pending e k db) db' o a' (ground (arith, h))
              (drop_pending-IsIndexed e db k v a.0 (λ m g. absurd (cc)) s)
        | inr (inl (b, h)) ↦
            pending_loop-IsIndexed now es (without_pending e k db) db' o a' (ground (arith, h))
              (drop_pending-IsIndexed e db k v a.0 (λ m g. absurd (cc)) s)
        | inr (inr (m, h)) ↦ pending_loop_step now k v m db db' o a.0 h (ground (arith, h)) s
      ]

  deferred_loop_step :
      (now : ℕ) (k v : Text) (m : Message) (db db' : Db e) (o : Option Message)
      → ((w : Text) → index.get db.deferred k ≡ some w → w ≡ v)
      → msgs.get db.messages v ≡ some (json m)
      → start_sending e now m (without_deferred e k db) ≡ some (o, db')
      → IsIndexed e db
      → IsIndexed e db'
  deferred_loop_step now k v m db db' o names g q s =
      elim (Option-cases (msgs.put db.messages m.id (json (as_sending e now m)))) [
        | inl p ↦ absurd (ground (arith, p))
        | inr (ms, p) ↦
            let same : record db { messages = ms; deferred = index.delete db.deferred k } ≡ db' =
              ground (arith, p) in
            rw (← same) (deferred_taken now k v m db ms names g p s)
      ]

  pub deferred_loop-IsIndexed :
      (now : ℕ) (es : List (Text × Text)) (db db' : Db e) (o : Option Message)
      → Names db.deferred es
      → deferred_loop e now es db ≡ some (o, db')
      → IsIndexed e db
      → IsIndexed e db'
  unfolding deferred_loop
  deferred_loop-IsIndexed now [] db db' o a q s =
      let same : db ≡ db' = ground arith in rw (← same) s
  deferred_loop-IsIndexed now ((k, v) ∷ es) db db' o a q s =
      elim (Bool-cases (ltb now (parse_timestamp_from_key e k))) [
        | inl late ↦ let same : db ≡ db' = ground (arith, late) in rw (← same) s
        | inr due ↦
            let a' = delete-Names db.deferred k es a.1 in
            elim (Stored-cases (msgs.get db.messages v)) [
              | inl h ↦
                  deferred_loop-IsIndexed now es (without_deferred e k db) db' o a'
                    (ground (arith, h, due))
                    (drop_deferred-IsIndexed e db k v a.0 (λ m g. absurd (cc)) s)
              | inr (inl (b, h)) ↦
                  deferred_loop-IsIndexed now es (without_deferred e k db) db' o a'
                    (ground (arith, h, due))
                    (drop_deferred-IsIndexed e db k v a.0 (λ m g. absurd (cc)) s)
              | inr (inr (m, h)) ↦
                  deferred_loop_step now k v m db db' o a.0 h (ground (arith, h, due)) s
            ]
      ]

  then_pending-IsIndexed :
      (now : ℕ) (r : Option Message) (mid db' : Db e) (o : Option Message)
      → then_pending e now (r, mid) ≡ some (o, db')
      → IsIndexed e mid
      → IsIndexed e db'
  unfolding then_pending
  then_pending-IsIndexed now (some m) mid db' o q s =
      let same : mid ≡ db' = ground arith in rw (← same) s
  then_pending-IsIndexed now none mid db' o q s =
      pending_loop-IsIndexed now (index.entries mid.pending) mid db' o
        (entries-Names mid.pending (index.entries mid.pending) (index.entries-get mid.pending)) q s

  -- The whole transaction of Dequeue.
  pub dequeue-IsIndexed :
      (now : ℕ) (db db' : Db e) (o : Option Message)
      → dequeue_in_tx e now db ≡ some (o, db')
      → IsIndexed e db
      → IsIndexed e db'
  unfolding dequeue_in_tx
  dequeue-IsIndexed now db db' o q s =
      let ((r, mid), p, rest) =
        >>=-eq-some (deferred_loop e now (index.entries db.deferred) db) (then_pending e now) q in
      let s' =
        deferred_loop-IsIndexed now (index.entries db.deferred) db mid r
          (entries-Names db.deferred (index.entries db.deferred) (index.entries-get db.deferred)) p
          s in
      then_pending-IsIndexed now r mid db' o rest s'
