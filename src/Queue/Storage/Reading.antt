-- ===== src/Queue/Storage/Reading.antt =====
-- internal/queue/storage.go: `List`, `Stats` and `Delete`.
use sendry.Base.{
  ℕ, ◌+◌, Bool, not, ◌&&◌, ◌||◌, some, List, [], ◌∷◌, Text, ltb, leb, if◌then◌else◌, take, drop,
}
use sendry.Queue.Message.{
  Message, Stored, json, corrupted, status_pending, status_sending, status_delivered, status_failed,
  status_deferred, other, status_eq,
}
use sendry.Queue.Bolt.{Env}
use sendry.Queue.Storage.{Db, ListFilter, QueueStats, make_index_key, commit}

-- No filter, or the message's status.
unfoldable pub passes : ListFilter → Message → Bool
unfolding status_eq
passes f m = status_eq f.filter_status (other []) || status_eq m.status f.filter_status

-- The loop of List, with the two counters of the source.
unfoldable pub list_loop : ListFilter → ℕ → ℕ → List (Text × Stored) → List Message
list_loop f skipped count [] = []
list_loop f skipped count ((k, corrupted b) ∷ rest) = list_loop f skipped count rest
list_loop f skipped count ((k, json m) ∷ rest) =
    let filtered = list_loop f skipped count rest in
    let skips = list_loop f (skipped + 1) count rest in
    let more = list_loop f skipped (count + 1) rest in
    if not (passes f m)
    then filtered
    else if ltb skipped f.filter_offset
    then skips
    else m ∷ (if ltb 0 f.filter_limit && leb f.filter_limit (count + 1) then [] else more)

unfoldable pub list_messages : (e : Env) → ListFilter → Db e → List Message
list_messages e f db = list_loop f 0 0 (e.msgs.entries db.messages)

abbrev pub no_stats : QueueStats
no_stats = record { pending = 0; sending = 0; delivered = 0; failed = 0; deferred = 0; total = 0 }

-- The body of the loop of Stats.
unfoldable pub tally : QueueStats → Message → QueueStats
tally s m = elim m.status [
  | status_pending ↦ record s { pending = s.pending + 1; total = s.total + 1 }
  | status_sending ↦ record s { sending = s.sending + 1; total = s.total + 1 }
  | status_delivered ↦ record s { delivered = s.delivered + 1; total = s.total + 1 }
  | status_failed ↦ record s { failed = s.failed + 1; total = s.total + 1 }
  | status_deferred ↦ record s { deferred = s.deferred + 1; total = s.total + 1 }
  | other t ↦ record s { total = s.total + 1 }
]

unfoldable pub stats_loop : QueueStats → List (Text × Stored) → QueueStats
stats_loop s [] = s
stats_loop s ((k, corrupted b) ∷ rest) = stats_loop s rest
stats_loop s ((k, json m) ∷ rest) = stats_loop (tally s m) rest

unfoldable pub stats : (e : Env) → Db e → QueueStats
stats e db = stats_loop no_stats (e.msgs.entries db.messages)

-- Delete: the index entries go that the stored times name.
unfoldable pub delete_in_tx : (e : Env) → Text → Db e → Db e
delete_in_tx e id db = elim (e.msgs.get db.messages id) [
  | some (json m) ↦ record db {
    messages = e.msgs.delete db.messages id;
    pending = e.index.delete db.pending (make_index_key e m.created_at m.id);
    deferred = e.index.delete db.deferred (make_index_key e m.next_retry_at m.id);
  }
  | _ ↦ record db { messages = e.msgs.delete db.messages id }
]

unfoldable pub delete : (e : Env) → Text → Db e → Bool × Db e
delete e id db = commit e db (some (delete_in_tx e id db))

-- The messages behind the entries, in their order.
unfoldable pub decoded : List (Text × Stored) → List Message
decoded [] = []
decoded ((k, corrupted b) ∷ rest) = decoded rest
decoded ((k, json m) ∷ rest) = m ∷ decoded rest

unfoldable pub matching : ListFilter → List Message → List Message
matching f [] = []
matching f (m ∷ ms) = if passes f m then m ∷ matching f ms else matching f ms

-- One page: all but the first `offset`, and no more than `limit` of these, if a limit is set.
abbrev pub page : ℕ → ℕ → List Message → List Message
page limit offset ms = let rest = drop offset ms in if ltb 0 limit then take limit rest else rest
