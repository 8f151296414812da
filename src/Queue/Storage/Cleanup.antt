-- ===== src/Queue/Storage/Cleanup.antt =====
-- internal/queue/storage.go: `CleanupDelivered` and `CleanupDLQ`. `t.Before(now.Add(-maxAge))` is
-- `t + max_age < now`; an age or a count of 0 or less is 0.
use sendry.Base.{
  ℕ, ◌+◌, ◌-◌, Bool, false, ◌&&◌, List, [], ◌∷◌, Text, text_eq, any, select, length, ltb, leb, ◌==◌,
  if◌then◌else◌,
}
use sendry.Queue.Message.{Stored, json, corrupted, status_delivered, status_eq}
use sendry.Queue.Bolt.{Env}
use sendry.Queue.Storage.{Db, parse_timestamp_from_key}

unfoldable pub is_old_delivered : ℕ → ℕ → Stored → Bool
unfolding status_eq
is_old_delivered max_age now (corrupted b) = false
is_old_delivered max_age now (json m) =
    status_eq m.status status_delivered && ltb (m.updated_at + max_age) now

unfoldable pub old_delivered : ℕ → ℕ → List (Text × Stored) → List Text
old_delivered max_age now [] = []
old_delivered max_age now ((k, b) ∷ rest) =
    if is_old_delivered max_age now b
    then k ∷ old_delivered max_age now rest
    else old_delivered max_age now rest

unfoldable pub delete_messages : (e : Env) → List Text → e.msgs.Carrier → e.msgs.Carrier
delete_messages e [] b = b
delete_messages e (k ∷ ks) b = delete_messages e ks (e.msgs.delete b k)

unfoldable pub cleanup_delivered : (e : Env) → ℕ → ℕ → Db e → ℕ × Db e
cleanup_delivered e max_age now db =
    let ks = old_delivered max_age now (e.msgs.entries db.messages) in
    if max_age == 0
    then (0, db)
    else (length ks, record db { messages = delete_messages e ks db.messages })

-- The dead letters older than `max_age`, if an age is set.
unfoldable pub aged_items : (e : Env) → ℕ → ℕ → List (Text × Text) → List (Text × Text)
aged_items e max_age now items =
    if ltb 0 max_age
    then select (λ item. ltb (parse_timestamp_from_key e item.0 + max_age) now) items
    else []

unfoldable pub delete_items : (e : Env) → List (Text × Text) → Db e → Db e
delete_items e [] db = db
delete_items e ((k, v) ∷ items) db = delete_items e items (record db {
  dead_letter = e.index.delete db.dead_letter k;
  messages = e.msgs.delete db.messages v;
})

-- The loop that enforces the count: the oldest items, less those that are gone by age, until
-- `to_delete` of them are gone.
unfoldable pub surplus : List (Text × Text) → ℕ → ℕ → List (Text × Text) → List (Text × Text)
surplus aged to_delete deleted [] = []
surplus aged to_delete deleted (item ∷ items) =
    let passed = surplus aged to_delete deleted items in
    let more = surplus aged to_delete (deleted + 1) items in
    if any (λ a. text_eq item.0 a.0) aged
    then passed
    else if leb to_delete deleted
    then []
    else item ∷ more

unfoldable pub cleanup_dlq : (e : Env) → ℕ → ℕ → ℕ → Db e → ℕ × Db e
cleanup_dlq e max_age max_count now db =
    let items = e.index.entries db.dead_letter in
    let aged = aged_items e max_age now items in
    let db' = delete_items e aged db in
    let remaining = length items - length aged in
    let over = surplus aged (remaining - max_count) 0 items in
    if ltb 0 max_count && ltb max_count remaining
    then (length aged + length over, delete_items e over db')
    else (length aged, db')
