-- ===== src/Jobs/Idle.antt =====
-- A job that is neither running nor scheduled is left alone by internal/web/worker/worker.go, and what
-- becomes of one that CampaignSend of internal/web/handlers/campaigns.go is asked to send later.
use sendry.Base.{
  ℕ, ◌≡◌, refl, sym, ◌∙◌, Bool, false, none, some, List, [], ◌∷◌, Text, text_eq, any, any-order_by,
  arith, has_key, DistinctKeys, has_key-select_found, find, select, has_key-own, Option-cases, inl,
  inr,
}
use sendry.Jobs.{SendJob, Store, running, is_running, is_scheduled}
use sendry.Jobs.Repository.{update_status}
use sendry.Jobs.Reading.{get_running_jobs, get_scheduled_jobs_due, is_due, get_by_id, pending_in}
use sendry.Jobs.Mails.{Outside}
use sendry.Jobs.Worker.{
  process_each, process_jobs, start_jobs, start_scheduled_jobs, track_queued_items,
}
use sendry.Jobs.Changes.{job_key}
use sendry.Jobs.Handling.{done}
use sendry.Jobs.Ticks.{process_each-Steps}
use sendry.Jobs.Tracking.{track_queued_items-Steps}
use sendry.Jobs.Kept.{
  Sound, Kept, Kept-refl, Kept-trans, Steps-Kept, other_job, update_status-distinct,
  set_status-KeepsJob,
}

pub start_jobs-Kept :
    (sv : Outside) (j : Text) (now : ℕ) (js : List SendJob) (st : Store)
    → has_key job_key j js ≡ false
    → Sound st
    → Kept j st (start_jobs sv now js st) × Sound (start_jobs sv now js st)
unfolding start_jobs update_status get_by_id has_key any
start_jobs-Kept sv j now [] st n s = (Kept-refl j st, s)
start_jobs-Kept sv j now (x ∷ xs) st n s =
    let st' = update_status x.id running now st in
    let one : Kept j st st' = (
      other_job _ j x.id st.jobs (set_status-KeepsJob running now) (ground arith),
      refl,
      refl,
      refl,
    ) in
    let (rest, s') : Kept j st' (start_jobs sv now xs st') × Sound (start_jobs sv now xs st') =
      start_jobs-Kept sv j now xs st' (ground arith)
        (update_status-distinct x.id running now st s.0, s.1) in
    (Kept-trans j st st' (start_jobs sv now xs st') one rest, s')

-- The job is not there, or neither running nor scheduled.
abbrev pub Idle : Text → Store → Type 0
Idle j st =
    (row : SendJob)
    → get_by_id j st ≡ some row
    → (is_running row.status ≡ false) × (is_scheduled row.status ≡ false)

find-none :
    (j : Text) (p : SendJob → Bool) (xs : List SendJob)
    → find (λ x. text_eq x.id j) xs ≡ none
    → has_key job_key j (select p xs) ≡ false
unfolding find select has_key any
find-none j p [] e = refl
find-none j p (x ∷ xs) e = ground (arith, find-none j p xs)

unselected :
    (j : Text) (p : SendJob → Bool) (st : Store)
    → DistinctKeys job_key st.jobs
    → ((row : SendJob) → get_by_id j st ≡ some row → p row ≡ false)
    → has_key job_key j (select p st.jobs) ≡ false
unfolding get_by_id
unselected j p st d f = elim (Option-cases (get_by_id j st)) [
  | inl e ↦ find-none j p st.jobs e
  | inr (row, e) ↦ has_key-select_found job_key j p row st.jobs d e (f row e)
]

pub not_due :
    (j : Text) (now : ℕ) (st : Store)
    → Sound st
    → ((row : SendJob) → get_by_id j st ≡ some row → is_scheduled row.status ≡ false)
    → has_key job_key j (get_scheduled_jobs_due now st) ≡ false
unfolding get_scheduled_jobs_due has_key is_due
not_due j now st s i =
    any-order_by _ _ (select (is_due now) st.jobs)
    ∙ unselected j (is_due now) st s.0 (λ row e. ground (arith, i row e))

not_running :
    (j : Text) (st : Store) → Sound st → Idle j st → has_key job_key j (get_running_jobs st) ≡ false
unfolding get_running_jobs has_key
not_running j st s i =
    any-order_by _ _ (select (λ x. is_running x.status) st.jobs)
    ∙ unselected j (λ x. is_running x.status) st s.0 (λ row e. (i row e).0)

Idle-Kept : (j : Text) (st st' : Store) → Kept j st st' → Idle j st → Idle j st'
Idle-Kept j st st' k i row e = i row (sym k.0 ∙ e)

pub process_jobs-Kept :
    (sv : Outside) (batch_size now : ℕ) (j : Text) (st : Store)
    → Sound st
    → Idle j st
    → Kept j st (process_jobs sv batch_size now st) × Sound (process_jobs sv batch_size now st)
unfolding process_jobs start_scheduled_jobs has_key any
process_jobs-Kept sv batch_size now j st s i =
    let u = start_scheduled_jobs sv now st in
    let (k1, s1) : Kept j st u × Sound u =
      start_jobs-Kept sv j now _ st (not_due j now st s (λ row e. (i row e).1)) s in
    let t = track_queued_items sv batch_size now u in
    let (k2, s2) : Kept j u t × Sound t =
      Steps-Kept j [] now refl s1 (track_queued_items-Steps sv now batch_size [] u s1.1) in
    let js = get_running_jobs t in
    let v = process_each sv batch_size now js t in
    let before : Kept j st t = Kept-trans j st u t k1 k2 in
    let (k3, s3) : Kept j t v × Sound v =
      Steps-Kept j js now (not_running j t s2 (Idle-Kept j st t before i)) s2
        (process_each-Steps sv now batch_size js js t t (has_key-own job_key js) s2.1 done) in
    (Kept-trans j st t v before k3, s3)

-- Ticks of the worker at these times.
unfoldable pub run_ticks : Outside → ℕ → List ℕ → Store → Store
run_ticks sv batch_size [] st = st
run_ticks sv batch_size (now ∷ later) st =
    run_ticks sv batch_size later (process_jobs sv batch_size now st)

-- A job that is neither running nor scheduled, such as one that is paused or cancelled, is left alone
-- by any number of ticks, where no two jobs and no two items have the same id: its row stays as it is
-- and so do its pending items, none of which is sent.
pub run_ticks-Idle :
    (sv : Outside) (batch_size : ℕ) (times : List ℕ) (j : Text) (st : Store)
    → Sound st
    → Idle j st
    → (get_by_id j (run_ticks sv batch_size times st) ≡ get_by_id j st)
      × (select (pending_in j) (run_ticks sv batch_size times st).items
          ≡ select (pending_in j) st.items)
unfolding run_ticks
run_ticks-Idle sv batch_size [] j st s i = (refl, refl)
run_ticks-Idle sv batch_size (now ∷ later) j st s i =
    let st' = process_jobs sv batch_size now st in
    let (k, s') : Kept j st st' × Sound st' = process_jobs-Kept sv batch_size now j st s i in
    let rest = run_ticks-Idle sv batch_size later j st' s' (Idle-Kept j st st' k i) in
    (rest.0 ∙ k.0, rest.1 ∙ k.1)
