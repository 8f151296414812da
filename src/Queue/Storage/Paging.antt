-- ===== src/Queue/Storage/Paging.antt =====
-- `List` and `Stats` of internal/queue/storage.go against what they stand for.
use sendry.Base.{
  ℕ, zero, suc, ◌+◌, ◌-◌, ◌≡◌, ◌≤◌, ◌<◌, refl, Bool-cases, inl, inr, List, [], ◌∷◌, Text, ltb,
  if◌then◌else◌, length, select, take, drop, arith,
}
use sendry.Queue.Message.{
  Message, MessageStatus, Stored, json, corrupted, status_eq, status_pending, status_sending,
  status_delivered, status_failed, status_deferred,
}
use sendry.Queue.Bolt.{Env}
use sendry.Queue.Storage.{Db, ListFilter, QueueStats}
use sendry.Queue.Storage.Reading.{
  list_loop, list_messages, decoded, matching, stats, stats_loop, tally, no_stats,
}

-- One page: all but the first `offset`, and no more than `limit` of these, if a limit is set.
abbrev pub page : ℕ → ℕ → List Message → List Message
page limit offset ms = let rest = drop offset ms in if ltb 0 limit then take limit rest else rest

minus_zero : (n : ℕ) → n - 0 ≡ n
minus_zero n = omega arith

take-step :
    (n : ℕ) (m : Message) (ms : List Message) → 0 < n → take n (m ∷ ms) ≡ m ∷ take (n - 1) ms
take-step zero m ms h = elim h [ ]
take-step (suc n) m ms h = let e : suc n - 1 ≡ n = omega arith in rw e

take_zero : (ms : List Message) → take 0 ms ≡ []
take_zero ms = refl

drop-step : (n : ℕ) (m : Message) (ms : List Message) → 0 < n → drop n (m ∷ ms) ≡ drop (n - 1) ms
drop-step zero m ms h = elim h [ ]
drop-step (suc n) m ms h = let e : suc n - 1 ≡ n = omega arith in rw e

drop_none : (n : ℕ) → ◌≡◌ {A = List Message} (drop n []) []
drop_none zero = refl
drop_none (suc n) = refl

take_none : (n : ℕ) → ◌≡◌ {A = List Message} (take n []) []
take_none zero = refl
take_none (suc n) = refl

list_loop-full :
    (f : ListFilter) (skipped count : ℕ) (es : List (Text × Stored))
    → f.filter_offset ≤ skipped
    → (0 < f.filter_limit → count < f.filter_limit)
    → list_loop f skipped count es ≡ page (f.filter_limit - count) 0 (matching f (decoded es))
unfolding list_loop matching decoded
list_loop-full f skipped count [] h c = ground (arith, take_none (f.filter_limit - count))
list_loop-full f skipped count ((k, corrupted b) ∷ es) h c = list_loop-full f skipped count es h c
list_loop-full f skipped count ((k, json m) ∷ es) h c = ground (
  arith,
  list_loop-full f skipped count es h c,
  list_loop-full f skipped (count + 1) es h,
  take-step (f.filter_limit - count) m (matching f (decoded es)),
  take_zero (matching f (decoded es)),
)

list_loop-page :
    (f : ListFilter) (skipped : ℕ) (es : List (Text × Stored))
    → skipped ≤ f.filter_offset
    → list_loop f skipped 0 es
      ≡ page f.filter_limit (f.filter_offset - skipped) (matching f (decoded es))
unfolding list_loop matching decoded
list_loop-page f skipped [] h =
    ground (arith, drop_none (f.filter_offset - skipped), take_none f.filter_limit)
list_loop-page f skipped ((k, corrupted b) ∷ es) h = list_loop-page f skipped es h
list_loop-page f skipped ((k, json m) ∷ es) h = elim (Bool-cases (ltb skipped f.filter_offset)) [
  | inl more ↦ ground (
    arith,
    more,
    list_loop-page f skipped es h,
    list_loop-page f (skipped + 1) es,
    drop-step (f.filter_offset - skipped) m (matching f (decoded es)),
  )
  | inr done ↦
      let none_left : f.filter_offset - skipped ≡ 0 = ground (arith, done) in
      let full = list_loop-full f skipped 0 ((k, json m) ∷ es) (ground (arith, done)) (λ p. p) in
      rw none_left (rw minus_zero at full)
]

-- List returns one page of the decodable messages that pass its filter, in the order of their keys:
-- it leaves out the first `offset` of these and returns no more than `limit` of the rest, and all
-- of the rest if the limit is 0.
list_messages-page :
    (e : Env) (f : ListFilter) (db : Db e)
    → list_messages e f db
      ≡ page f.filter_limit f.filter_offset (matching f (decoded (e.msgs.entries db.messages)))
unfolding list_messages
list_messages-page e f db =
    let paged = list_loop-page f 0 (e.msgs.entries db.messages) (omega arith) in
    rw minus_zero at paged

-- How many messages have a status.
pub with_status : MessageStatus → List Message → ℕ
with_status s ms = length (select (λ m. status_eq m.status s) ms)

tally-one :
    (s : QueueStats) (m : Message) (ms : List Message)
    → ((tally s m).pending + with_status status_pending ms
        ≡ s.pending + with_status status_pending (m ∷ ms))
      × ((tally s m).sending + with_status status_sending ms
          ≡ s.sending + with_status status_sending (m ∷ ms))
      × ((tally s m).delivered + with_status status_delivered ms
          ≡ s.delivered + with_status status_delivered (m ∷ ms))
      × ((tally s m).failed + with_status status_failed ms
          ≡ s.failed + with_status status_failed (m ∷ ms))
      × ((tally s m).deferred + with_status status_deferred ms
          ≡ s.deferred + with_status status_deferred (m ∷ ms))
      × ((tally s m).total ≡ s.total + 1)
unfolding tally with_status status_eq select
tally-one s m ms = ground arith

abbrev pub Counted : QueueStats → QueueStats → List Message → Type 0
Counted r s ms =
    (r.pending ≡ s.pending + with_status status_pending ms)
    × (r.sending ≡ s.sending + with_status status_sending ms)
    × (r.delivered ≡ s.delivered + with_status status_delivered ms)
    × (r.failed ≡ s.failed + with_status status_failed ms)
    × (r.deferred ≡ s.deferred + with_status status_deferred ms)
    × (r.total ≡ s.total + length ms)

stats_loop-Counted :
    (s : QueueStats) (es : List (Text × Stored)) → Counted (stats_loop s es) s (decoded es)
unfolding stats_loop decoded
stats_loop-Counted s [] = unfold with_status select in omega arith
stats_loop-Counted s ((k, corrupted b) ∷ es) = stats_loop-Counted s es
stats_loop-Counted s ((k, json m) ∷ es) =
    let ih = stats_loop-Counted (tally s m) es in
    let one = tally-one s m (decoded es) in omega (arith, ih, one)

-- Stats counts each status exactly, over the messages that can be decoded, and the total is the
-- number of these messages, whatever their status.
pub stats-Counted :
    (e : Env) (db : Db e)
    → let ms = decoded (e.msgs.entries db.messages) in
      ((stats e db).pending ≡ with_status status_pending ms)
      × ((stats e db).sending ≡ with_status status_sending ms)
      × ((stats e db).delivered ≡ with_status status_delivered ms)
      × ((stats e db).failed ≡ with_status status_failed ms)
      × ((stats e db).deferred ≡ with_status status_deferred ms)
      × ((stats e db).total ≡ length ms)
unfolding stats
stats-Counted e db =
    let c = stats_loop-Counted no_stats (e.msgs.entries db.messages) in omega (arith, c)
