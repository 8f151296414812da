-- ===== src/Queue/Storage/DeadLetter.antt =====
-- internal/queue/storage.go: the dead letter queue.
use sendry.Base.{
  ℕ, ◌+◌, Bool, true, ◌&&◌, Option, none, some, List, [], ◌∷◌, Text, text_eq, ltb, leb, ◌==◌,
  if◌then◌else◌, ◌>>=◌,
}
use sendry.Queue.Message.{Message, json, corrupted, status_pending, status_failed, status_eq}
use sendry.Queue.Bolt.{Env}
use sendry.Queue.Storage.{Db, make_index_key, parse_timestamp_from_key, commit}

unfoldable pub move_to_dlq_in_tx : (e : Env) → ℕ → Message → Db e → Option (Db e)
move_to_dlq_in_tx e now m db = do
  let m' = record m { status = status_failed; updated_at = now }
  ds ← e.index.put db.dead_letter (make_index_key e now m.id) m.id
  ms ← e.msgs.put db.messages m.id (json m')
  some (record db { dead_letter = ds; messages = ms })

-- MoveToDLQ
unfoldable pub move_to_dlq : (e : Env) → ℕ → Message → Db e → Bool × Db e
move_to_dlq e now m db = commit e db (move_to_dlq_in_tx e now m db)

-- The loop of ListDLQ: an entry within the offset is skipped before its message is looked up.
list_dlq_loop : (e : Env) → ℕ → ℕ → ℕ → ℕ → Db e → List (Text × Text) → List Message
list_dlq_loop e limit offset skipped count db [] = []
list_dlq_loop e limit offset skipped count db ((k, v) ∷ rest) =
    let skips = list_dlq_loop e limit offset (skipped + 1) count db rest in
    let passed = list_dlq_loop e limit offset skipped count db rest in
    let more = list_dlq_loop e limit offset skipped (count + 1) db rest in
    if ltb skipped offset then skips else elim (e.msgs.get db.messages v) [
      | some (json m) ↦ m ∷ (if ltb 0 limit && leb limit (count + 1) then [] else more)
      | _ ↦ passed
    ]

unfoldable pub list_dlq : (e : Env) → ℕ → ℕ → Db e → List Message
unfolding list_dlq_loop
list_dlq e limit offset db = list_dlq_loop e limit offset 0 0 db (e.index.entries db.dead_letter)

-- GetFromDLQ: the outer `none` is an error.
unfoldable pub get_from_dlq : (e : Env) → Text → Db e → Option (Option Message)
get_from_dlq e id db = elim (e.msgs.get db.messages id) [
  | none ↦ some none
  | some (corrupted b) ↦ none
  | some (json m) ↦ if status_eq m.status status_failed then some (some m) else some none
]

-- The key of the first entry whose value is `id`.
unfoldable pub key_of : Text → List (Text × Text) → Option Text
key_of id [] = none
key_of id ((k, v) ∷ rest) = if text_eq v id then some k else key_of id rest

unfoldable pub without_dead_letter : (e : Env) → Text → Db e → Db e
without_dead_letter e id db = elim (key_of id (e.index.entries db.dead_letter)) [
  | none ↦ db
  | some k ↦ record db { dead_letter = e.index.delete db.dead_letter k }
]

abbrev pub renewed : ℕ → Message → Message
renewed now m = record m {
  status = status_pending;
  retry_count = 0;
  last_error = [];
  updated_at = now;
}

unfoldable pub retry_found : (e : Env) → ℕ → Text → Message → Db e → Option (Db e)
retry_found e now id m db = do
  ms ← e.msgs.put db.messages id (json (renewed now m))
  ps ← e.index.put db.pending (make_index_key e now m.id) m.id
  some (record db { messages = ms; pending = ps })

unfoldable pub retry_from_dlq_in_tx : (e : Env) → ℕ → Text → Db e → Option (Db e)
unfolding retry_found without_dead_letter
retry_from_dlq_in_tx e now id db = elim (e.msgs.get db.messages id) [
  | some (json m) ↦ retry_found e now id m (without_dead_letter e id db)
  | _ ↦ none
]

-- RetryFromDLQ
unfoldable pub retry_from_dlq : (e : Env) → ℕ → Text → Db e → Bool × Db e
retry_from_dlq e now id db = commit e db (retry_from_dlq_in_tx e now id db)

-- DeleteFromDLQ
unfoldable pub delete_from_dlq : (e : Env) → Text → Db e → Bool × Db e
unfolding without_dead_letter
delete_from_dlq e id db =
    let db' = without_dead_letter e id db in
    (true, record db' { messages = e.msgs.delete db'.messages id })

pub record DlqStats : Type 0 where
  pub total : ℕ
  pub total_size : ℕ
  pub oldest_at : ℕ

dlq_stats_loop : (e : Env) → Db e → DlqStats → List (Text × Text) → DlqStats
dlq_stats_loop e db s [] = s
dlq_stats_loop e db s ((k, v) ∷ rest) =
    let oldest = if s.total == 0 then parse_timestamp_from_key e k else s.oldest_at in
    let size : ℕ = elim (e.msgs.get db.messages v) [ none ↦ 0 | some b ↦ e.stored_len b ] in
    dlq_stats_loop e db
      (record { total = s.total + 1; total_size = s.total_size + size; oldest_at = oldest }) rest

-- The method DLQStats.
unfoldable pub dlq_stats : (e : Env) → Db e → DlqStats
unfolding dlq_stats_loop
dlq_stats e db =
    dlq_stats_loop e db (record { total = 0; total_size = 0; oldest_at = 0 })
      (e.index.entries db.dead_letter)
