-- ===== src/Queue/Storage/Index.antt =====
-- The invariant that ties the messages of internal/queue/storage.go to its two indexes, and what
-- single writes to a bucket do to it.
use sendry.Base.{ℕ, ◌≡◌, ◌≢◌, some, Text, text_eq, text_eq_iff, Bool-cases, inl, inr, arith}
use sendry.Queue.Message.{Message, json, status_pending, status_deferred}
use sendry.Queue.Bolt.{Env}
use sendry.Queue.Storage.{Db, make_index_key, without_pending, without_deferred}

module _ (e : Env) where
  open e use {msgs, index}

  -- Each message stands under its own id; a key of an index that a time and an id make holds that
  -- id; a pending message has a pending key, and a deferred one a deferred key.
  pub record IsIndexed (db : Db e) : Type 0 where
    pub own_key : (k : Text) (m : Message) → msgs.get db.messages k ≡ some (json m) → m.id ≡ k
    pub pending_names :
        (t : ℕ) (k v : Text) → index.get db.pending (make_index_key e t k) ≡ some v → v ≡ k
    pub deferred_names :
        (t : ℕ) (k v : Text) → index.get db.deferred (make_index_key e t k) ≡ some v → v ≡ k
    pub pending_indexed :
        (k : Text) (m : Message)
        → msgs.get db.messages k ≡ some (json m)
        → m.status ≡ status_pending
        → (t : ℕ) × (index.get db.pending (make_index_key e t k) ≡ some k)
    pub deferred_indexed :
        (k : Text) (m : Message)
        → msgs.get db.messages k ≡ some (json m)
        → m.status ≡ status_deferred
        → (t : ℕ) × (index.get db.deferred (make_index_key e t k) ≡ some k)

  key_unique : (t u : ℕ) (x y : Text) → make_index_key e t x ≡ make_index_key e u y → x ≡ y
  unfolding make_index_key
  key_unique t u x y h = e.format-unique t u x y h

  pub put_pending-IsIndexed :
      (db : Db e) (t : ℕ) (id : Text) (ps : index.Carrier)
      → index.put db.pending (make_index_key e t id) id ≡ some ps
      → IsIndexed db
      → IsIndexed (record db { pending = ps })
  put_pending-IsIndexed db t id ps p s = record {
    own_key = s.own_key;
    pending_names = λ u k v h. ground (
      arith,
      index.get-put db.pending ps (make_index_key e t id) (make_index_key e u k) id p,
      text_eq_iff (make_index_key e t id) (make_index_key e u k),
      key_unique t u id k,
      s.pending_names u k v,
    );
    deferred_names = s.deferred_names;
    pending_indexed = λ k m h q.
        let (u, g) = s.pending_indexed k m h q in
        (
          u,
          ground (
            arith,
            g,
            index.get-put db.pending ps (make_index_key e t id) (make_index_key e u k) id p,
            text_eq_iff (make_index_key e t id) (make_index_key e u k),
            key_unique t u id k,
          ),
        );
    deferred_indexed = s.deferred_indexed;
  }

  pub put_deferred-IsIndexed :
      (db : Db e) (t : ℕ) (id : Text) (ds : index.Carrier)
      → index.put db.deferred (make_index_key e t id) id ≡ some ds
      → IsIndexed db
      → IsIndexed (record db { deferred = ds })
  put_deferred-IsIndexed db t id ds p s = record {
    own_key = s.own_key;
    pending_names = s.pending_names;
    deferred_names = λ u k v h. ground (
      arith,
      index.get-put db.deferred ds (make_index_key e t id) (make_index_key e u k) id p,
      text_eq_iff (make_index_key e t id) (make_index_key e u k),
      key_unique t u id k,
      s.deferred_names u k v,
    );
    pending_indexed = s.pending_indexed;
    deferred_indexed = λ k m h q.
        let (u, g) = s.deferred_indexed k m h q in
        (
          u,
          ground (
            arith,
            g,
            index.get-put db.deferred ds (make_index_key e t id) (make_index_key e u k) id p,
            text_eq_iff (make_index_key e t id) (make_index_key e u k),
            key_unique t u id k,
          ),
        );
  }

  -- A message may be stored once it has the index entry that its status asks for.
  pub put_message-IsIndexed :
      (db : Db e) (m : Message) (ms : msgs.Carrier)
      → msgs.put db.messages m.id (json m) ≡ some ms
      → (m.status ≡ status_pending
          → (t : ℕ) × (index.get db.pending (make_index_key e t m.id) ≡ some m.id))
      → (m.status ≡ status_deferred
          → (t : ℕ) × (index.get db.deferred (make_index_key e t m.id) ≡ some m.id))
      → IsIndexed db
      → IsIndexed (record db { messages = ms })
  put_message-IsIndexed db m ms p hp hd s = record {
    own_key = λ k n h.
        ground
          (arith, msgs.get-put db.messages ms m.id k (json m) p, text_eq_iff m.id k, s.own_key k n);
    pending_names = s.pending_names;
    deferred_names = s.deferred_names;
    pending_indexed = λ k n h q. elim (Bool-cases (text_eq m.id k)) [
      | inl same ↦
          let (u, g) = hp (ground (arith, msgs.get-put db.messages ms m.id k (json m) p)) in
          (u, ground (arith, g, text_eq_iff m.id k))
      | inr ne ↦
          s.pending_indexed k n (ground (arith, msgs.get-put db.messages ms m.id k (json m) p)) q
    ];
    deferred_indexed = λ k n h q. elim (Bool-cases (text_eq m.id k)) [
      | inl same ↦
          let (u, g) = hd (ground (arith, msgs.get-put db.messages ms m.id k (json m) p)) in
          (u, ground (arith, g, text_eq_iff m.id k))
      | inr ne ↦
          s.deferred_indexed k n (ground (arith, msgs.get-put db.messages ms m.id k (json m) p)) q
    ];
  }

  pub drop_message-IsIndexed :
      (db : Db e) (id : Text)
      → IsIndexed db
      → IsIndexed (record db { messages = msgs.delete db.messages id })
  drop_message-IsIndexed db id s = record {
    own_key = λ k m h. s.own_key k m (ground (arith, msgs.get-delete db.messages id k));
    pending_names = s.pending_names;
    deferred_names = s.deferred_names;
    pending_indexed =
        λ k m h. s.pending_indexed k m (ground (arith, msgs.get-delete db.messages id k));
    deferred_indexed =
        λ k m h. s.deferred_indexed k m (ground (arith, msgs.get-delete db.messages id k));
  }

  -- A pending key may go if it names only an id under which no pending message stands.
  pub drop_pending-IsIndexed :
      (db : Db e) (key id : Text)
      → ((v : Text) → index.get db.pending key ≡ some v → v ≡ id)
      → ((m : Message) → msgs.get db.messages id ≡ some (json m) → m.status ≢ status_pending)
      → IsIndexed db
      → IsIndexed (without_pending e key db)
  drop_pending-IsIndexed db key id names free s = record {
    own_key = s.own_key;
    pending_names = λ t k v h.
        s.pending_names t k v
          (ground (arith, index.get-delete db.pending key (make_index_key e t k)));
    deferred_names = s.deferred_names;
    pending_indexed = λ k m h q.
        let (u, g) = s.pending_indexed k m h q in
        (
          u,
          ground (
            arith,
            g,
            index.get-delete db.pending key (make_index_key e u k),
            text_eq_iff key (make_index_key e u k),
            names k,
            free m,
            h,
            q,
          ),
        );
    deferred_indexed = s.deferred_indexed;
  }

  pub drop_deferred-IsIndexed :
      (db : Db e) (key id : Text)
      → ((v : Text) → index.get db.deferred key ≡ some v → v ≡ id)
      → ((m : Message) → msgs.get db.messages id ≡ some (json m) → m.status ≢ status_deferred)
      → IsIndexed db
      → IsIndexed (without_deferred e key db)
  drop_deferred-IsIndexed db key id names free s = record {
    own_key = s.own_key;
    pending_names = s.pending_names;
    deferred_names = λ t k v h.
        s.deferred_names t k v
          (ground (arith, index.get-delete db.deferred key (make_index_key e t k)));
    pending_indexed = s.pending_indexed;
    deferred_indexed = λ k m h q.
        let (u, g) = s.deferred_indexed k m h q in
        (
          u,
          ground (
            arith,
            g,
            index.get-delete db.deferred key (make_index_key e u k),
            text_eq_iff key (make_index_key e u k),
            names k,
            free m,
            h,
            q,
          ),
        );
  }

  pub with_dead_letter-IsIndexed :
      (db : Db e) (d : index.Carrier) → IsIndexed db → IsIndexed (record db { dead_letter = d })
  with_dead_letter-IsIndexed db d s = record {
    own_key = s.own_key;
    pending_names = s.pending_names;
    deferred_names = s.deferred_names;
    pending_indexed = s.pending_indexed;
    deferred_indexed = s.deferred_indexed;
  }
