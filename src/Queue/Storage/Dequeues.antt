-- ===== src/Queue/Storage/Dequeues.antt =====
-- What `Dequeue` of internal/queue/storage.go returns.
use sendry.Base.{
  ℕ, ◌≡◌, ◌≢◌, ◌≤◌, ◌⊎◌, Option, none, some, List, [], ◌∷◌, All, Text, inl, inr, arith, >>=-eq-some,
  Option-cases, lookup,
}
use sendry.Queue.Message.{Message, json, status_pending, Stored-cases}
use sendry.Queue.Bolt.{Env}
use sendry.Queue.Storage.{
  Db, make_index_key, parse_timestamp_from_key, without_pending, as_sending, deferred_loop,
  pending_loop, dequeue_in_tx, then_pending,
}
use sendry.Queue.Storage.Index.{IsIndexed}
use sendry.Queue.Storage.Loops.{dequeue-IsIndexed}

module _ (e : Env) where
  open e use {msgs, index}

  -- If the loop over the pending messages finds none, it has removed every key.
  pending_loop-empties :
      (now : ℕ) (es : List (Text × Text)) (db db' : Db e) (key : Text)
      → pending_loop e now es db ≡ some (none, db')
      → (lookup key es ≢ none) ⊎ (index.get db.pending key ≡ none)
      → index.get db'.pending key ≡ none
  unfolding pending_loop lookup
  pending_loop-empties now [] db db' key q h = ground arith
  pending_loop-empties now ((k, v) ∷ es) db db' key q h =
      let rest : (lookup key es ≢ none) ⊎ (index.get (index.delete db.pending k) key ≡ none) =
        ground (arith, index.get-delete db.pending k key) in
      elim (Stored-cases (msgs.get db.messages v)) [
        | inl g ↦
            pending_loop-empties now es (without_pending e k db) db' key (ground (arith, g)) rest
        | inr (inl (b, g)) ↦
            pending_loop-empties now es (without_pending e k db) db' key (ground (arith, g)) rest
        | inr (inr (m, g)) ↦ absurd (ground (arith, g))
      ]

  then_pending-empties :
      (now : ℕ) (r : Option Message) (mid db' : Db e) (key : Text)
      → then_pending e now (r, mid) ≡ some (none, db')
      → index.get db'.pending key ≡ none
  unfolding then_pending
  then_pending-empties now (some m) mid db' key q = cc
  then_pending-empties now none mid db' key q =
      pending_loop-empties now (index.entries mid.pending) mid db' key q
        (elim (Option-cases (index.get mid.pending key)) [
          | inl g ↦ inr g
          | inr (v, g) ↦ inl (ground (arith, g, index.lookup-entries mid.pending key))
        ])

  -- When Dequeue succeeds and returns no message, no stored message is pending: on a database whose
  -- indexes are in order, a pending message is never passed over.
  pub dequeue_none :
      (now : ℕ) (db db' : Db e) (k : Text) (m : Message)
      → IsIndexed e db
      → dequeue_in_tx e now db ≡ some (none, db')
      → msgs.get db'.messages k ≡ some (json m)
      → m.status ≢ status_pending
  unfolding dequeue_in_tx
  dequeue_none now db db' k m s q g p =
      let s' = dequeue-IsIndexed e now db db' none q s in
      let (t, h) = s'.pending_indexed k m g p in
      let ((r, mid), _, rest) =
        >>=-eq-some (deferred_loop e now (index.entries db.deferred) db) (then_pending e now) q in
      cc (then_pending-empties now r mid db' (make_index_key e t k) rest, h)

  -- A message taken through a key of one of the indexes.
  pub record Taken (now : ℕ) (db db' : Db e) (m : Message) : Type 0 where
    pub key : Text
    pub value : Text
    pub stored : Message
    pub was_stored : msgs.get db.messages value ≡ some (json stored)
    pub marked : m ≡ as_sending e now stored
    pub is_stored : msgs.get db'.messages m.id ≡ some (json m)
    pub others : (k : Text) → k ≢ m.id → msgs.get db'.messages k ≡ msgs.get db.messages k
    pub due :
        ((index.get db.deferred key ≡ some value)
          × (parse_timestamp_from_key e key ≤ now)
          × (index.get db'.deferred key ≡ none))
        ⊎ ((index.get db.pending key ≡ some value) × (index.get db'.pending key ≡ none))

  abbrev Holds : index.Carrier → List (Text × Text) → Type 0
  Holds b es = All (λ p. index.get b p.0 ≡ some p.1) es
