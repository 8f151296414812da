-- ===== src/Jobs/Progress.antt =====
-- A running job comes to its end: internal/web/worker/worker.go.
use Prim.Native.Nat.{min}
use sendry.Base.{
  ℕ, ◌-◌, ◌≤◌, ◌<◌, ◌≡◌, refl, ap, ◌∙◌, true, false, some, [], Text, text_eq, text_eq_refl, ◌⊎◌,
  inl, inr, any, arith, if◌then◌else◌, find, length, length-select, is_empty, Bool-cases,
  Option-cases, ◌==◌, ltb, ◌&&◌,
}
use sendry.Jobs.{JobStatus, SendJob, Store, JobStats, completed, failed, Campaign, is_running}
use sendry.Jobs.Repository.{update_status, update_stats, set_status}
use sendry.Jobs.Reading.{
  get_by_id, pending_in, of_job, get_pending_items, get_job_stats, get_campaign, get_variants,
}
use sendry.Jobs.Mails.{Outside, variant_map, template_map}
use sendry.Jobs.Worker.{process_items, process_batch, process_job, finish_job, save_stats}
use sendry.Jobs.Changes.{find-update_job}
use sendry.Jobs.Ticks.{get_pending_items-Batch, verdict_cases}
use sendry.Jobs.Kept.{Sound, Kept, set_status-KeepsJob}
use sendry.Jobs.Batches.{
  waiting, process_items-waiting, get_pending_items-length, get_job_stats-pending,
}

-- The job runs, has items, and `n` at most of them wait.
pub record Working (j : Text) (n : ℕ) (st : Store) : Type 0 where
  pub row : SendJob
  pub found : get_by_id j st ≡ some row
  pub runs : is_running row.status ≡ true
  pub has_items : any (of_job j) st.items ≡ true
  pub few : waiting j st ≤ n

-- The job is completed or has failed.
pub record Over (j : Text) (st : Store) : Type 0 where
  pub row : SendJob
  pub found : get_by_id j st ≡ some row
  pub ended : (row.status ≡ completed) ⊎ (row.status ≡ failed)

pub Working-Kept :
    (j : Text) (n : ℕ) (st st' : Store) → Kept j st st' → Working j n st → Working j n st'
Working-Kept j n st st' k w = record {
  row = w.row;
  found = k.0 ∙ w.found;
  runs = w.runs;
  has_items = k.2 ∙ w.has_items;
  few = ground (
    arith,
    w.few,
    length-select (pending_in j) st.items,
    length-select (pending_in j) st'.items,
    ap length k.1,
  );
}

pub Over-Kept : (j : Text) (st st' : Store) → Kept j st st' → Over j st → Over j st'
Over-Kept j st st' k o = record { row = o.row; found = k.0 ∙ o.found; ended = o.ended }

set_status-status : (s : JobStatus) (now : ℕ) (j : SendJob) → (set_status s now j).status ≡ s
unfolding set_status
set_status-status s now j = ground arith

update_status-Over :
    (j : Text) (s : JobStatus) (now : ℕ) (st : Store) {row : SendJob}
    → get_by_id j st ≡ some row
    → (s ≡ completed) ⊎ (s ≡ failed)
    → Over j (update_status j s now st)
unfolding get_by_id update_status
update_status-Over j s now st {row} f e = record {
  row = set_status s now row;
  found = ground (
    arith,
    find-update_job (set_status s now) j j st.jobs (set_status-KeepsJob s now),
    text_eq_refl j,
  );
  ended = rw (set_status-status s now row) e;
}

module _ (sv : Outside) (batch_size now : ℕ) (some_each : 0 < batch_size) where
  finish_job-Over :
      (j : Text) (n : ℕ) (st : Store)
      → Working j n st
      → waiting j st ≡ 0
      → Over j (finish_job sv now j st)
  unfolding finish_job
  finish_job-Over j n st w z =
      let (stats, e, p) = get_job_stats-pending j st w.has_items in
      let none_left : (stats.pending == 0) ≡ true = ground (arith, p) in
      rw (finish_job, e, none_left)
        (update_status-Over j _ now st w.found
          (verdict_cases (ltb 0 stats.failed && (stats.sent == 0))))

  update_stats-Working :
      (j : Text) (n : ℕ) (stats : JobStats) (st : Store)
      → Working j n st
      → Working j n (update_stats j stats now st)
  unfolding update_stats get_by_id
  update_stats-Working j n stats st w =
      let f : SendJob → SendJob = λ x. record x { stats = some stats; updated_at = now } in
      record {
        row = f w.row;
        found =
            ground
              (arith, find-update_job f j j st.jobs (λ x. (refl, refl)), text_eq_refl j, w.found);
        runs = w.runs;
        has_items = w.has_items;
        few = w.few;
      }

  save_stats-Working :
      (j : Text) (n : ℕ) (st : Store) → Working j n st → Working j n (save_stats sv now j st)
  unfolding save_stats
  save_stats-Working j n st w = elim (Option-cases (get_job_stats j st)) [
    | inl e ↦ rw (save_stats, e) w
    | inr (stats, e) ↦ rw (save_stats, e) (update_stats-Working j n stats st w)
  ]

  process_batch-Working :
      (job : SendJob) (c : Campaign) (n : ℕ) (st : Store)
      → Sound st
      → get_campaign job.campaign_id st ≡ some c
      → Working job.id n st
      → Working job.id
          (n - batch_size)
          (process_batch sv now job (get_pending_items job.id batch_size st) st)
  unfolding process_batch get_by_id
  process_batch-Working job c n st s e w =
      let items = get_pending_items job.id batch_size st in
      let variants = get_variants job.campaign_id st in
      let vars = if is_empty c.variables then [] else (sv.decode_flat c.variables).1 in
      let st' =
        process_items sv now c (variant_map variants []) (template_map st variants []) vars items
          st in
      let r =
        process_items-waiting sv now c (variant_map variants []) (template_map st variants []) vars
          job.id items st (get_pending_items-Batch job.id batch_size st s.1) in
      rw (process_batch, e)
        (save_stats-Working job.id (n - batch_size) st' (record {
          row = w.row;
          found = ap (λ js. find (λ (x : SendJob). text_eq x.id job.id) js) r.1.0 ∙ w.found;
          runs = w.runs;
          has_items = r.1.2 ∙ w.has_items;
          few = ground (arith, r.0, w.few, get_pending_items-length job.id batch_size st);
        }))

  -- A batch is handled, or the job is at its end.
  pub process_job-Working :
      (job : SendJob) (c : Campaign) (n : ℕ) (st : Store)
      → Sound st
      → get_campaign job.campaign_id st ≡ some c
      → Working job.id n st
      → Over job.id (process_job sv batch_size now job st)
        ⊎ ((0 < n) × Working job.id (n - batch_size) (process_job sv batch_size now job st))
  unfolding process_job
  process_job-Working job c n st s e w =
      let l = get_pending_items-length job.id batch_size st in
      elim (Bool-cases (is_empty (get_pending_items job.id batch_size st))) [
        | inl none_left ↦
            inl (rw (process_job, none_left) (finish_job-Over job.id n st w (nothing none_left l)))
        | inr more ↦ inr (
          something more l w.few,
          rw (process_job, more) (process_batch-Working job c n st s e w),
        )
      ]
    where
      nothing :
          is_empty (get_pending_items job.id batch_size st) ≡ true
          → length (get_pending_items job.id batch_size st) ≡ min batch_size (waiting job.id st)
          → waiting job.id st ≡ 0
      nothing h l = ground arith

      something :
          is_empty (get_pending_items job.id batch_size st) ≡ false
          → length (get_pending_items job.id batch_size st) ≡ min batch_size (waiting job.id st)
          → waiting job.id st ≤ n
          → 0 < n
      something h l f = ground arith
