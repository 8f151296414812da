-- ===== src/Jobs/Ticks.antt =====
-- The handling of the jobs by internal/web/worker/worker.go as a sequence of small changes of
-- the store.
use sendry.Base.{
  ℕ, ◌≡◌, refl, Bool, true, false, ◌&&◌, Option, none, some, List, [], ◌∷◌, Text, ◌⊎◌, inl, inr,
  text_eq_refl, All, All-map, All-select_cons, any, arith, select, has_key, DistinctKeys,
  DistinctKeys-select, DistinctKeys-order_by, DistinctKeys-take, All-order_by, All-take,
  if◌then◌else◌, Bool-cases, is_empty, ltb, ◌==◌,
}
use sendry.Jobs.{
  SendJob, SendJobItem, Store, JobStatus, completed, ItemStatus, failed, JobStats, Campaign,
  is_pending,
}
use sendry.Jobs.Repository.{update_item_status, update_status, update_stats}
use sendry.Jobs.Reading.{pending_in, get_pending_items, get_campaign, get_job_stats}
use sendry.Jobs.Mails.{Outside}
use sendry.Jobs.Worker.{process_batch, process_job, process_each, finish_job, save_stats}
use sendry.Jobs.Statements.{awaits-update_item_status, distinct-update_item_status}
use sendry.Jobs.Changes.{job_key, item_key, awaits, has_row}
use sendry.Jobs.Handling.{
  Step, Steps, done, next, tracked, dropped, handed_over, saved, finished, Batch,
  process_items-Steps, record_call,
}

-- No change gives two rows one id.
pub Step-distinct :
    (js : List SendJob) (now : ℕ) (st st' : Store)
    → Step js now st st'
    → DistinctKeys item_key st.items
    → DistinctKeys item_key st'.items
unfolding is_pending update_stats update_status
Step-distinct js now st st' (tracked id s msg err p w e) d =
    rw e (distinct-update_item_status id s msg err now st p d)
Step-distinct js now st st' (dropped k i err m w e) d =
    rw e (distinct-update_item_status i.id failed [] err now st refl d)
Step-distinct js now st st' (handed_over k i req s msg err m w p e) d =
    rw e (distinct-update_item_status i.id s msg err now (record_call i req st) p d)
Step-distinct js now st st' (saved k stats m e) d = rw e d
Step-distinct js now st st' (finished k s m f e) d = rw e d

pub Steps-distinct :
    (js : List SendJob) (now : ℕ) {st st' : Store}
    → Steps js now st st'
    → DistinctKeys item_key st.items
    → DistinctKeys item_key st'.items
Steps-distinct js now done d = d
Steps-distinct js now (next {t} {u} r s) d = Step-distinct js now t u s (Steps-distinct js now r d)

-- No change makes a row wait.
settled_row :
    (id k : Text) (s : ItemStatus) (msg err : Text) (now : ℕ) (st : Store)
    → is_pending s ≡ false
    → has_row awaits k st.items ≡ false
    → has_row awaits k (update_item_status id s msg err now st).items ≡ false
settled_row id k s msg err now st p h =
    ground (arith, awaits-update_item_status id s msg err now st p k)

pub Step-settled :
    (js : List SendJob) (now : ℕ) (st st' : Store)
    → Step js now st st'
    → (i : SendJobItem) → has_row awaits i.id st.items ≡ false
    → has_row awaits i.id st'.items ≡ false
unfolding is_pending update_stats update_status
Step-settled js now st st' (tracked id s msg err p w e) i h =
    rw e (settled_row id i.id s msg err now st p h)
Step-settled js now st st' (dropped k j err m w e) i h =
    rw e (settled_row j.id i.id failed [] err now st refl h)
Step-settled js now st st' (handed_over k j req s msg err m w p e) i h =
    rw e (settled_row j.id i.id s msg err now (record_call j req st) p h)
Step-settled js now st st' (saved k stats m e) i h = rw e h
Step-settled js now st st' (finished k s m f e) i h = rw e h

-- A row that was selected waits.
selected_waits :
    (k : Text) (is : List SendJobItem)
    → All (λ (r : SendJobItem). has_row (pending_in k) r.id is ≡ true) (select (pending_in k) is)
unfolding has_row any select
selected_waits k [] = tt
selected_waits k (i ∷ is) =
    All-select_cons (λ (r : SendJobItem). has_row (pending_in k) r.id (i ∷ is) ≡ true)
      (pending_in k) i is (λ w. ground (arith, text_eq_refl i.id))
      (All-map (λ (r : SendJobItem). has_row (pending_in k) r.id is ≡ true)
        (λ (r : SendJobItem). has_row (pending_in k) r.id (i ∷ is) ≡ true)
        (select (pending_in k) is) (λ r h. ground arith) (selected_waits k is))

pub get_pending_items-Batch :
    (k : Text) (limit : ℕ) (st : Store)
    → DistinctKeys item_key st.items
    → Batch k st (get_pending_items k limit st)
unfolding get_pending_items
get_pending_items-Batch k limit st d =
    let rows = select (pending_in k) st.items in
    (
      All-take _ limit _ (All-order_by _ _ rows (selected_waits k st.items)),
      DistinctKeys-take item_key limit _ (
          DistinctKeys-order_by item_key _ rows
            (DistinctKeys-select item_key (pending_in k) st.items d)),
    )

pub verdict_cases :
    (b : Bool)
    → let s = if b then JobStatus.failed else completed in (s ≡ completed) ⊎ (s ≡ JobStatus.failed)
verdict_cases true = inr refl
verdict_cases false = inl refl

module _ (sv : Outside) (now : ℕ) where
  finish_job-Steps :
      (js : List SendJob) (k : Text) (s st : Store)
      → has_key job_key k js ≡ true
      → Steps js now s st
      → Steps js now s (finish_job sv now k st)
  unfolding finish_job
  finish_job-Steps js k s st m r = go (get_job_stats k st) refl
    where
      go : (o : Option JobStats) → get_job_stats k st ≡ o → Steps js now s (finish_job sv now k st)
      go none e = rw (finish_job, e) r
      go (some stats) e = elim (Bool-cases (stats.pending == 0)) [
        | inl z ↦
            rw (finish_job, e, z)
              (next r
                (finished k _ m (verdict_cases (ltb 0 stats.failed && (stats.sent == 0))) refl))
        | inr nz ↦ rw (finish_job, e, nz) r
      ]

  save_stats-Steps :
      (js : List SendJob) (k : Text) (s st : Store)
      → has_key job_key k js ≡ true
      → Steps js now s st
      → Steps js now s (save_stats sv now k st)
  unfolding save_stats
  save_stats-Steps js k s st m r = go (get_job_stats k st) refl
    where
      go : (o : Option JobStats) → get_job_stats k st ≡ o → Steps js now s (save_stats sv now k st)
      go none e = rw (save_stats, e) r
      go (some stats) e = rw (save_stats, e) (next r (saved k stats m refl))

  process_batch-Steps :
      (js : List SendJob) (j : SendJob) (is : List SendJobItem) (s st : Store)
      → has_key job_key j.id js ≡ true
      → Batch j.id st is
      → Steps js now s st
      → Steps js now s (process_batch sv now j is st)
  unfolding process_batch
  process_batch-Steps js j is s st m b r = go (get_campaign j.campaign_id st) refl
    where
      go :
          (o : Option Campaign)
          → get_campaign j.campaign_id st ≡ o
          → Steps js now s (process_batch sv now j is st)
      go none e = rw (process_batch, e) r
      go (some c) e =
          rw (process_batch, e)
            (save_stats-Steps js j.id s _ m
              (process_items-Steps sv now c _ _ _ js j.id is s st m b r))

  pub process_job-Steps :
      (batch_size : ℕ) (js : List SendJob) (j : SendJob) (s st : Store)
      → has_key job_key j.id js ≡ true
      → DistinctKeys item_key st.items
      → Steps js now s st
      → Steps js now s (process_job sv batch_size now j st)
  unfolding process_job
  process_job-Steps batch_size js j s st m d r =
      elim (Bool-cases (is_empty (get_pending_items j.id batch_size st))) [
        | inl e ↦ rw (process_job, e) (finish_job-Steps js j.id s st m r)
        | inr e ↦
            rw (process_job, e)
              (process_batch-Steps js j _ s st m (get_pending_items-Batch j.id batch_size st d) r)
      ]

  pub process_each-Steps :
      (batch_size : ℕ) (js all : List SendJob) (s st : Store)
      → All (λ (j : SendJob). has_key job_key j.id all ≡ true) js
      → DistinctKeys item_key s.items
      → Steps all now s st
      → Steps all now s (process_each sv batch_size now js st)
  unfolding process_each
  process_each-Steps batch_size [] all s st m d r = r
  process_each-Steps batch_size (j ∷ js) all s st m d r =
      process_each-Steps batch_size js all s (process_job sv batch_size now j st) m.1 d
        (process_job-Steps batch_size all j s st m.0 (Steps-distinct all now r d) r)
