-- ===== src/Queue/Storage/Tests.antt =====
-- The properties of the storage at concrete inputs.
use sendry.Base.{
  ℕ, ◌≡◌, ◌≢◌, refl, true, false, Option, none, some, List, [], ◌∷◌, Text, codes, lookup, remove,
  text_eq, select, length, ltb, if◌then◌else◌, ◌==◌, ◌≤◌, ◌<◌, arith, insert, ◌⊎◌, inl, inr,
}
use sendry.Queue.Message.{Message, json, status_pending, status_delivered, status_deferred}
use sendry.Queue.Bolt.Sample.{sample, newest}
use sendry.Queue.Storage.{
  Db, make_index_key, dequeue_in_tx, deferred_loop, pending_loop, then_pending, as_sending,
}
use sendry.Queue.Storage.DeadLetter.{
  retry_from_dlq, retry_from_dlq_in_tx, retry_found, get_from_dlq, renewed, without_dead_letter,
  key_of,
}
use sendry.Queue.Storage.Index.{IsIndexed}
use sendry.Queue.Storage.NoneLost.{Op, enqueues, dequeues, updates}
use sendry.Queue.Storage.Dequeues.{dequeue_none}
use sendry.Queue.Storage.Retries.{retry_not_in_dlq}

abbrev letter : Message
letter = record {
  id = codes "a";
  from = codes "u@x.org";
  to = codes "v@y.org" ∷ [];
  raw = [];
  status = status_pending;
  created_at = 1;
  updated_at = 1;
  next_retry_at = 0;
  retry_count = 0;
  last_error = [];
  client_ip = [];
  auth_user = [];
}

abbrev sent : Message
sent = record letter { status = status_delivered }

abbrev waiting : Message
waiting = record letter { status = status_deferred; next_retry_at = 3 }

-- One pending message.
abbrev one_db : Db sample
one_db = record {
  messages = (codes "a", json letter) ∷ [];
  pending = (codes "1:a", codes "a") ∷ [];
  deferred = [];
  dead_letter = [];
}

abbrev taken_db : Db sample
taken_db = record {
  messages = (codes "a", json (as_sending sample 2 letter)) ∷ (codes "a", json letter) ∷ [];
  pending = [];
  deferred = [];
  dead_letter = [];
}

-- One delivered message.
abbrev sent_db : Db sample
sent_db = record {
  messages = (codes "a", json sent) ∷ [];
  pending = [];
  deferred = [];
  dead_letter = (codes "1:a", codes "a") ∷ [];
}

abbrev retried_db : Db sample
retried_db = record {
  messages = (codes "a", json (renewed 2 sent)) ∷ (codes "a", json sent) ∷ [];
  pending = (codes "11:a", codes "a") ∷ [];
  deferred = [];
  dead_letter = [];
}

abbrev calls : List (ℕ × Op)
calls =
    (1, enqueues letter)
    ∷ (2, dequeues)
    ∷ (2, updates (record letter { status = status_deferred; next_retry_at = 4 }))
    ∷ []

nothing_left : dequeue_in_tx sample 2 sent_db ≡ some (none, sent_db)
unfolding dequeue_in_tx deferred_loop pending_loop then_pending newest
nothing_left = refl

sent_db-get :
    (k : Text) (m : Message)
    → lookup k sent_db.messages ≡ some (json m)
    → (k ≡ codes "a") × (m ≡ sent)
unfolding lookup
sent_db-get k m h = ground (arith, sendry.Base.text_eq_iff (codes "a") k)

sent_db-IsIndexed : IsIndexed sample sent_db
unfolding lookup make_index_key
sent_db-IsIndexed = record {
  own_key = λ k m h. ground (arith, sent_db-get k m h);
  pending_names = λ t k v h. ground (arith, h);
  deferred_names = λ t k v h. ground (arith, h);
  pending_indexed = λ k m h q. absurd (ground (arith, sent_db-get k m h, q));
  deferred_indexed = λ k m h q. absurd (ground (arith, sent_db-get k m h, q));
}

dequeue_none_example : sent.status ≢ status_pending
unfolding lookup text_eq
dequeue_none_example =
    dequeue_none sample 2 sent_db sent_db (codes "a") sent sent_db-IsIndexed nothing_left refl

retries_sent : retry_from_dlq sample 2 (codes "a") sent_db ≡ (true, retried_db)
unfolding retry_from_dlq retry_from_dlq_in_tx retry_found without_dead_letter key_of newest remove
    lookup text_eq make_index_key
retries_sent = refl

retry_not_in_dlq_example :
    (get_from_dlq sample (codes "a") sent_db ≡ some none)
    × (lookup (codes "a") retried_db.messages ≡ some (json (renewed 2 sent)))
    × (lookup (make_index_key sample 2 (codes "a")) retried_db.pending ≡ some (codes "a"))
unfolding lookup text_eq
retry_not_in_dlq_example =
    retry_not_in_dlq sample 2 (codes "a") sent sent_db retried_db refl (λ q. cc) retries_sent
