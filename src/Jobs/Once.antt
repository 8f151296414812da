-- ===== src/Jobs/Once.antt =====
-- The worker of internal/web/worker/worker.go hands an item to a mail server once, whatever is done
-- with its job through internal/web/handlers/jobs.go and internal/web/handlers/campaigns.go.
use sendry.Base.{
  ℕ, ◌≡◌, refl, true, false, List, [], ◌∷◌, Text, text_eq_iff, text_eq_refl, All, All-map, any,
  arith, has_key, DistinctKeys, has_key-own,
}
use sendry.Jobs.{SendJob, SendJobItem, Store, failed, ItemStatus, is_pending, Handed}
use sendry.Jobs.Repository.{update_item_status, update_status, update_stats}
use sendry.Jobs.Reading.{get_running_jobs}
use sendry.Jobs.Mails.{Outside}
use sendry.Jobs.Worker.{process_jobs, start_jobs, start_scheduled_jobs, track_queued_items}
use sendry.Jobs.Changes.{job_key, item_key, awaits, has_row}
use sendry.Jobs.Statements.{awaits-update_item_status, distinct-update_item_status, waits-awaits}
use sendry.Jobs.Handling.{Step, Steps, done, next, tracked, dropped, handed_over, saved, finished}
use sendry.Jobs.Ticks.{process_each-Steps}
use sendry.Jobs.Tracking.{track_queued_items-Steps}

abbrev pub handed_key : Handed → Text
handed_key h = h.item_id

-- No item was handed over twice, and none that was handed over is pending.
pub record HandedOnce (items : List SendJobItem) (handed : List Handed) : Type 0 where
  pub distinct_items : DistinctKeys item_key items
  pub settled : All (λ (h : Handed). has_row awaits h.item_id items ≡ false) handed
  pub distinct : DistinctKeys handed_key handed

abbrev pub Once : Store → Type 0
Once st = HandedOnce st.items st.handed

update-Once :
    (id : Text) (s : ItemStatus) (msg err : Text) (now : ℕ) (st : Store)
    → is_pending s ≡ false
    → Once st
    → HandedOnce (update_item_status id s msg err now st).items st.handed
update-Once id s msg err now st p o = record {
  distinct_items = distinct-update_item_status id s msg err now st p o.distinct_items;
  settled =
      All-map (λ (h : Handed). has_row awaits h.item_id st.items ≡ false) _ st.handed
        (λ h q. ground (arith, awaits-update_item_status id s msg err now st p h.item_id))
        o.settled;
  distinct = o.distinct;
}

-- What waits was not handed over.
waiting_unhanded :
    (k : Text) (items : List SendJobItem) (hs : List Handed)
    → has_row awaits k items ≡ true
    → All (λ (h : Handed). has_row awaits h.item_id items ≡ false) hs
    → has_key handed_key k hs ≡ false
unfolding has_key any
waiting_unhanded k items [] w a = refl
waiting_unhanded k items (h ∷ hs) w a =
    ground (arith, text_eq_iff h.item_id k, waiting_unhanded k items hs w a.1)

Step-Once : (js : List SendJob) (now : ℕ) (st st' : Store) → Step js now st st' → Once st → Once st'
unfolding is_pending update_item_status update_stats update_status
Step-Once js now st st' (tracked id s msg err p w e) o = rw e (update-Once id s msg err now st p o)
Step-Once js now st st' (dropped k i err m w e) o =
    rw e (update-Once i.id failed [] err now st refl o)
Step-Once js now st st' (handed_over k i req s msg err m w p e) o =
    let later = update-Once i.id s msg err now st p o in
    rw e (record {
      distinct_items = later.distinct_items;
      settled = (
        ground (arith, text_eq_refl i.id, awaits-update_item_status i.id s msg err now st p i.id),
        later.settled,
      );
      distinct = (
        waiting_unhanded i.id st.items st.handed (waits-awaits k i.id st.items w) o.settled,
        o.distinct,
      );
    })
Step-Once js now st st' (saved k stats m e) o = rw e o
Step-Once js now st st' (finished k s m f e) o = rw e o

Steps-Once :
    (js : List SendJob) (now : ℕ) {st st' : Store} → Steps js now st st' → Once st → Once st'
Steps-Once js now done o = o
Steps-Once js now (next {t} {u} r s) o = Step-Once js now t u s (Steps-Once js now r o)

start_jobs-Once :
    (sv : Outside) (now : ℕ) (js : List SendJob) (st : Store)
    (P : List SendJobItem → List Handed → Type 0)
    → P st.items st.handed
    → P (start_jobs sv now js st).items (start_jobs sv now js st).handed
unfolding start_jobs update_status
start_jobs-Once sv now [] st P o = o
start_jobs-Once sv now (j ∷ js) st P o = start_jobs-Once sv now js _ P o

pub process_jobs-Once :
    (sv : Outside) (batch_size now : ℕ) (st : Store)
    → Once st
    → Once (process_jobs sv batch_size now st)
unfolding process_jobs start_scheduled_jobs
process_jobs-Once sv batch_size now st o =
    let started = start_scheduled_jobs sv now st in
    let o1 : Once started = start_jobs-Once sv now _ st HandedOnce o in
    let t = track_queued_items sv batch_size now started in
    let o2 : Once t =
      Steps-Once [] now (track_queued_items-Steps sv now batch_size [] started o1.distinct_items)
        o1 in
    let js = get_running_jobs t in
    Steps-Once js now
      (process_each-Steps sv now batch_size js js t t (has_key-own job_key js) o2.distinct_items
        done)
      o2
