-- ===== src/Jobs/Finishing.antt =====
-- Ticks of the worker of internal/web/worker/worker.go bring a running job to its end.
use sendry.Base.{
  ℕ, ◌-◌, ◌<◌, ◌≡◌, refl, sym, ap, ◌∙◌, true, false, some, List, [], ◌∷◌, Text, text_eq,
  text_eq_iff, text_eq_refl, ◌⊎◌, inl, inr, All, All-select, All-order_by, any, any-order_by, arith,
  has_key, has_key-own, has_key-select_passes, DistinctKeys, DistinctKeys-select,
  DistinctKeys-order_by, find, select, Bool-cases,
}
use sendry.Jobs.{SendJob, Store, Campaign, is_running, is_scheduled, running, JobStatus}
use sendry.Jobs.Repository.{update_status, update_stats, update_item_status, set_status}
use sendry.Jobs.Reading.{get_by_id, get_campaign, get_running_jobs}
use sendry.Jobs.Mails.{Outside}
use sendry.Jobs.Worker.{
  process_job, process_each, process_jobs, start_jobs, start_scheduled_jobs, track_queued_items,
}
use sendry.Jobs.Changes.{job_key, All-update_job}
use sendry.Jobs.Handling.{Step, Steps, done, next, tracked, dropped, handed_over, saved, finished}
use sendry.Jobs.Ticks.{process_job-Steps, process_each-Steps}
use sendry.Jobs.Tracking.{track_queued_items-Steps}
use sendry.Jobs.Kept.{Sound, Kept, Steps-Kept, Steps-Sound, set_status-KeepsJob}
use sendry.Jobs.Idle.{start_jobs-Kept, not_due}
use sendry.Jobs.Progress.{Working, Over, Working-Kept, Over-Kept, process_job-Working}

-- The campaign of the job is there, as the schema demands.
abbrev pub Known : List Campaign → SendJob → Type 0
Known cs x = (c : Campaign) × (find (λ y. text_eq y.id x.campaign_id) cs ≡ some c)

abbrev pub AllKnown : Store → Type 0
AllKnown st = All (Known st.campaigns) st.jobs

set_status-Known :
    (cs : List Campaign) (s : JobStatus) (now : ℕ) (j : SendJob)
    → Known cs j
    → Known cs (set_status s now j)
set_status-Known cs s now j k = (k.0, rw (set_status-KeepsJob s now j).1 k.1)

Step-Known :
    (js : List SendJob) (now : ℕ) (st st' : Store) → Step js now st st' → AllKnown st → AllKnown st'
unfolding update_item_status update_stats update_status
Step-Known js now st st' (tracked id x msg err p w e) a = rw e a
Step-Known js now st st' (dropped k i err m w e) a = rw e a
Step-Known js now st st' (handed_over k i req x msg err m w p e) a = rw e a
Step-Known js now st st' (saved k stats m e) a =
    rw e (All-update_job (Known st.campaigns) _ k st.jobs (λ j h. h) a)
Step-Known js now st st' (finished k x m f e) a = rw e (
    All-update_job (Known st.campaigns) (set_status x now) k st.jobs
      (set_status-Known st.campaigns x now) a)

Steps-Known :
    (js : List SendJob) (now : ℕ) {st st' : Store}
    → Steps js now st st'
    → AllKnown st
    → AllKnown st'
Steps-Known js now done a = a
Steps-Known js now (next {t} {u} r s) a = Step-Known js now t u s (Steps-Known js now r a)

start_jobs-Known :
    (sv : Outside) (now : ℕ) (js : List SendJob) (st : Store)
    → AllKnown st
    → AllKnown (start_jobs sv now js st)
unfolding start_jobs update_status
start_jobs-Known sv now [] st a = a
start_jobs-Known sv now (j ∷ js) st a =
    start_jobs-Known sv now js (update_status j.id running now st) (
      All-update_job (Known st.campaigns) (set_status running now) j.id st.jobs
        (set_status-Known st.campaigns running now) a)

-- The job is over, or fewer of its items wait.
abbrev pub Nearer : ℕ → Text → ℕ → Store → Type 0
Nearer batch_size j n st = Over j st ⊎ ((0 < n) × Working j (n - batch_size) st)

module _ (sv : Outside) (batch_size now : ℕ) (some_each : 0 < batch_size) where
  Nearer-Kept :
      (j : Text) (n : ℕ) (st st' : Store)
      → Kept j st st'
      → Nearer batch_size j n st
      → Nearer batch_size j n st'
  Nearer-Kept j n st st' k (inl o) = inl (Over-Kept j st st' k o)
  Nearer-Kept j n st st' k (inr (p, w)) = inr (p, Working-Kept j (n - batch_size) st st' k w)

  process_own :
      (j : Text) (x : SendJob) (n : ℕ) (st : Store)
      → x.id ≡ j
      → Known st.campaigns x
      → Sound st
      → Working j n st
      → Nearer batch_size j n (process_job sv batch_size now x st)
  unfolding get_campaign
  process_own j x n st e k s w =
      rw (← e) (process_job-Working sv batch_size now some_each x k.0 n st s k.1 (rw e w))

  process_each-Nearer :
      (cs : List Campaign) (j : Text) (js : List SendJob) (n : ℕ) (st : Store)
      → st.campaigns ≡ cs
      → All (Known cs) js
      → DistinctKeys job_key js
      → has_key job_key j js ≡ true
      → Sound st
      → Working j n st
      → Nearer batch_size j n (process_each sv batch_size now js st)
  unfolding process_each has_key any
  process_each-Nearer cs j [] n st e a d m s w = absurd cc
  process_each-Nearer cs j (x ∷ xs) n st e a d m s w =
      let st' = process_job sv batch_size now x st in
      let steps : Steps (x ∷ []) now st st' =
        process_job-Steps sv now batch_size (x ∷ []) x st st (ground (arith, text_eq_refl x.id)) s.1
          done in
      let s' : Sound st' = Steps-Sound (x ∷ []) now steps s in
      elim (Bool-cases (text_eq x.id j)) [
        | inl own ↦
            let e' : x.id ≡ j = (text_eq_iff x.id j).0 own in
            let absent : has_key job_key j xs ≡ false = rw (← e') d.0 in
            let (k, s'') : Kept j st' (process_each sv batch_size now xs st')
                × Sound (process_each sv batch_size now xs st') =
              Steps-Kept j xs now absent s' (
                process_each-Steps sv now batch_size xs xs st' st' (has_key-own job_key xs) s'.1
                  done) in
            Nearer-Kept j n st' (process_each sv batch_size now xs st') k
              (process_own j x n st e' (rw e a.0) s w)
        | inr other ↦
            let (k, s'') : Kept j st st' × Sound st' =
              Steps-Kept j (x ∷ []) now (ground arith) s steps in
            process_each-Nearer cs j xs n st' (k.3 ∙ e) a.1 d.1 (ground arith) s'
              (Working-Kept j n st st' k w)
      ]

  running_row :
      (j : Text) (n : ℕ) (st : Store)
      → Working j n st
      → has_key job_key j (get_running_jobs st) ≡ true
  unfolding get_running_jobs get_by_id has_key
  running_row j n st w =
      any-order_by _ _ (select (λ (x : SendJob). is_running x.status) st.jobs)
      ∙ has_key-select_passes job_key j (λ x. is_running x.status) w.row st.jobs w.found w.runs

  running_distinct :
      (st : Store) → DistinctKeys job_key st.jobs → DistinctKeys job_key (get_running_jobs st)
  unfolding get_running_jobs
  running_distinct st d =
      DistinctKeys-order_by job_key _ _
        (DistinctKeys-select job_key (λ x. is_running x.status) st.jobs d)

  running-Known : (st : Store) → AllKnown st → All (Known st.campaigns) (get_running_jobs st)
  unfolding get_running_jobs
  running-Known st a =
      All-order_by _ (Known st.campaigns) _
        (All-select (Known st.campaigns) (λ x. is_running x.status) st.jobs a)

  not_scheduled :
      (j : Text) (n : ℕ) (st : Store)
      → Working j n st
      → (row : SendJob) → get_by_id j st ≡ some row
      → is_scheduled row.status ≡ false
  unfolding is_running is_scheduled
  not_scheduled j n st w row e =
      let same : w.row ≡ row = cc (w.found, e) in
      let runs : is_running row.status ≡ true =
        ap (λ (x : SendJob). is_running x.status) (sym same) ∙ w.runs in
      ground (arith, runs)

  pub process_jobs-Nearer :
      (j : Text) (n : ℕ) (st : Store)
      → Sound st
      → AllKnown st
      → Working j n st
      → let st' = process_jobs sv batch_size now st in
        Nearer batch_size j n st' × Sound st' × AllKnown st'
  unfolding process_jobs start_scheduled_jobs has_key any
  process_jobs-Nearer j n st s a w =
      let u = start_scheduled_jobs sv now st in
      let (k1, s1) : Kept j st u × Sound u =
        start_jobs-Kept sv j now _ st (not_due j now st s (not_scheduled j n st w)) s in
      let a1 : AllKnown u = start_jobs-Known sv now _ st a in
      let t = track_queued_items sv batch_size now u in
      let tracks : Steps [] now u t = track_queued_items-Steps sv now batch_size [] u s1.1 in
      let (k2, s2) : Kept j u t × Sound t = Steps-Kept j [] now refl s1 tracks in
      let a2 : AllKnown t = Steps-Known [] now tracks a1 in
      let w2 : Working j n t = Working-Kept j n u t k2 (Working-Kept j n st u k1 w) in
      let js = get_running_jobs t in
      let each : Steps js now t (process_each sv batch_size now js t) =
        process_each-Steps sv now batch_size js js t t (has_key-own job_key js) s2.1 done in
      (
        process_each-Nearer t.campaigns j js n t refl (running-Known t a2) (running_distinct t s2.0)
            (running_row j n t w2) s2 w2,
        Steps-Sound js now each s2,
        Steps-Known js now each a2,
      )
