-- ===== src/Jobs/Kept.antt =====
-- The worker of internal/web/worker/worker.go leaves a job alone that is not among those it handles.
use sendry.Base.{
  ℕ, ◌≡◌, refl, ◌∙◌, true, false, List, [], Text, text_eq, text_eq_iff, any, arith, has_key,
  DistinctKeys, find, select,
}
use sendry.Jobs.{JobStatus, SendJob, Store, failed, is_pending}
use sendry.Jobs.Repository.{update_item_status, update_status, update_stats, update_job, set_status}
use sendry.Jobs.Reading.{get_by_id, pending_in, of_job}
use sendry.Jobs.Changes.{job_key, item_key, KeepsJob, find-update_job, DistinctKeys-update_job}
use sendry.Jobs.Statements.{
  select-update_item_status, of_job-update_item_status, waits-awaits, waits-other,
}
use sendry.Jobs.Handling.{Step, Steps, done, next, tracked, dropped, handed_over, saved, finished}
use sendry.Jobs.Ticks.{Step-distinct}

-- No two jobs and no two items have the same id.
abbrev pub Sound : Store → Type 0
Sound st = DistinctKeys job_key st.jobs × DistinctKeys item_key st.items

pub set_status-KeepsJob : (s : JobStatus) (now : ℕ) → KeepsJob (set_status s now)
unfolding set_status
set_status-KeepsJob s now j = ground arith

pub update_status-distinct :
    (k : Text) (s : JobStatus) (now : ℕ) (st : Store)
    → DistinctKeys job_key st.jobs
    → DistinctKeys job_key (update_status k s now st).jobs
unfolding update_status
update_status-distinct k s now st d =
    DistinctKeys-update_job (set_status s now) k st.jobs (set_status-KeepsJob s now) d

pub Step-Sound :
    (js : List SendJob) (now : ℕ) (st st' : Store) → Step js now st st' → Sound st → Sound st'
unfolding update_item_status update_stats update_status
Step-Sound js now st st' t s = (jobs t, Step-distinct js now st st' t s.1)
  where
    jobs : Step js now st st' → DistinctKeys job_key st'.jobs
    jobs (tracked id x msg err p w e) = rw e s.0
    jobs (dropped k i err m w e) = rw e s.0
    jobs (handed_over k i req x msg err m w p e) = rw e s.0
    jobs (saved k stats m e) = rw e (DistinctKeys-update_job _ k st.jobs (λ j. (refl, refl)) s.0)
    jobs (finished k x m f e) = rw e (update_status-distinct k x now st s.0)

pub Steps-Sound :
    (js : List SendJob) (now : ℕ) {st st' : Store} → Steps js now st st' → Sound st → Sound st'
Steps-Sound js now done s = s
Steps-Sound js now (next {t} {u} r step) s = Step-Sound js now t u step (Steps-Sound js now r s)

-- The row of the job and its pending items are as they were.
abbrev pub Kept : Text → Store → Store → Type 0
Kept j st st' =
    (get_by_id j st' ≡ get_by_id j st)
    × (select (pending_in j) st'.items ≡ select (pending_in j) st.items)
    × (any (of_job j) st'.items ≡ any (of_job j) st.items)
    × (st'.campaigns ≡ st.campaigns)

pub Kept-refl : (j : Text) (st : Store) → Kept j st st
Kept-refl j st = (refl, refl, refl, refl)

pub Kept-trans : (j : Text) (s t u : Store) → Kept j s t → Kept j t u → Kept j s u
Kept-trans j s t u a b = (b.0 ∙ a.0, b.1 ∙ a.1, b.2 ∙ a.2, b.3 ∙ a.3)

pub not_among :
    (j k : Text) (js : List SendJob)
    → has_key job_key k js ≡ true
    → has_key job_key j js ≡ false
    → text_eq k j ≡ false
not_among j k js m n = ground (arith, text_eq_iff k j)

pub other_job :
    (f : SendJob → SendJob) (j k : Text) (js : List SendJob)
    → KeepsJob f
    → text_eq k j ≡ false
    → find (λ x. text_eq x.id j) (update_job f k js) ≡ find (λ x. text_eq x.id j) js
other_job f j k js h n =
    ground (arith, find-update_job f j k js h, text_eq_iff k j, text_eq_iff j k)

Step-Kept :
    (j : Text) (js : List SendJob) (now : ℕ) (st st' : Store)
    → has_key job_key j js ≡ false
    → DistinctKeys item_key st.items
    → Step js now st st'
    → Kept j st st'
unfolding is_pending get_by_id update_item_status update_stats update_status
Step-Kept j js now st st' n d (tracked id x msg err p w e) = rw e (
  refl,
  select-update_item_status id x msg err now st p j (ground (arith, waits-awaits j id st.items)),
  of_job-update_item_status id x msg err now st p j,
  refl,
)
Step-Kept j js now st st' n d (dropped k i err m w e) = rw e (
  refl,
  select-update_item_status i.id failed [] err now st refl j
      (waits-other j k i.id st.items d w (not_among j k js m n)),
  of_job-update_item_status i.id failed [] err now st refl j,
  refl,
)
Step-Kept j js now st st' n d (handed_over k i req x msg err m w p e) = rw e (
  refl,
  select-update_item_status i.id x msg err now st p j
      (waits-other j k i.id st.items d w (not_among j k js m n)),
  of_job-update_item_status i.id x msg err now st p j,
  refl,
)
Step-Kept j js now st st' n d (saved k stats m e) =
    rw e (other_job _ j k st.jobs (λ x. (refl, refl)) (not_among j k js m n), refl, refl, refl)
Step-Kept j js now st st' n d (finished k x m f e) = rw e (
  other_job (set_status x now) j k st.jobs (set_status-KeepsJob x now) (not_among j k js m n),
  refl,
  refl,
  refl,
)

pub Steps-Kept :
    (j : Text) (js : List SendJob) (now : ℕ) {st st' : Store}
    → has_key job_key j js ≡ false
    → Sound st
    → Steps js now st st'
    → Kept j st st' × Sound st'
Steps-Kept j js now n s done = (Kept-refl j _, s)
Steps-Kept j js now {st} n s (next {t} {u} r step) =
    let (k, s') : Kept j st t × Sound t = Steps-Kept j js now n s r in
    (Kept-trans j st t u k (Step-Kept j js now t u n s'.1 step), Step-Sound js now t u step s')
