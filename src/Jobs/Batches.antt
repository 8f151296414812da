-- ===== src/Jobs/Batches.antt =====
-- What a batch of a job does to the items that wait: internal/web/worker/worker.go.
use Prim.Native.Nat.{min}
use sendry.Base.{
  order_by, ℕ, ◌+◌, ◌≤◌, ◌≡◌, refl, ◌∙◌, true, false, Option, some, List, [], ◌∷◌, Text, any, arith,
  count, select, length, length-take, length-order_by, length-select, Dict, is_empty, count-select,
}
use sendry.Jobs.{
  SendJobItem, Store, JobStats, failed, is_pending, is_queued, is_sent, is_failed, Campaign,
  CampaignVariant, Template,
}
use sendry.Jobs.Repository.{update_item_status}
use sendry.Jobs.Reading.{pending_in, of_job, get_pending_items, oldest_first, get_job_stats}
use sendry.Jobs.Mails.{Outside}
use sendry.Jobs.Worker.{process_item, process_items}
use sendry.Jobs.Statements.{count-update_item_status, of_job-update_item_status}
use sendry.Jobs.Handling.{Handling, unsent, called, Batch, Batch-next, Waits, process_item-Handling}

-- How many items of the job wait.
abbrev pub waiting : Text → Store → ℕ
waiting k st = count (pending_in k) st.items

-- A change of the items only.
abbrev pub SameJobs : Text → Store → Store → Type 0
SameJobs k st st' =
    (st'.jobs ≡ st.jobs)
    × (st'.campaigns ≡ st.campaigns)
    × (any (of_job k) st'.items ≡ any (of_job k) st.items)

Handling-waiting :
    (now : ℕ) (k : Text) (i : SendJobItem) (st st' : Store)
    → Waits k st i
    → Handling now i st st'
    → (waiting k st' + 1 ≤ waiting k st) × SameJobs k st st'
unfolding is_pending update_item_status
Handling-waiting now k i st st' w (unsent err e) = rw e (
  ground (arith, count-update_item_status i.id failed [] err now st refl k),
  (refl, refl, of_job-update_item_status i.id failed [] err now st refl k),
)
Handling-waiting now k i st st' w (called req s msg err p e) = rw e (
  ground (arith, count-update_item_status i.id s msg err now st p k),
  (refl, refl, of_job-update_item_status i.id s msg err now st p k),
)

module _ (sv : Outside) (now : ℕ) (c : Campaign) (vs : Dict CampaignVariant)
    (ts : Dict (Option Template)) (vars : Dict Text) where
  pub process_items-waiting :
      (k : Text) (is : List SendJobItem) (st : Store)
      → Batch k st is
      → let st' = process_items sv now c vs ts vars is st in
        (waiting k st' + length is ≤ waiting k st) × SameJobs k st st'
  unfolding process_items
  process_items-waiting k [] st b = (omega arith, (refl, refl, refl))
  process_items-waiting k (i ∷ is) st b =
      let st' = process_item sv now c vs ts vars i st in
      let h : Handling now i st st' = process_item-Handling sv now c vs ts vars i st in
      let one = Handling-waiting now k i st st' b.0.0 h in
      let rest =
        process_items-waiting k is st'
          (Batch-next sv now c vs ts vars k i is st st' b.1.0 h (b.0.1, b.1.1)) in
      (omega (arith, one.0, rest.0), (rest.1.0 ∙ one.1.0, rest.1.1 ∙ one.1.1, rest.1.2 ∙ one.1.2))

pub get_pending_items-length :
    (k : Text) (limit : ℕ) (st : Store)
    → length (get_pending_items k limit st) ≡ min limit (waiting k st)
unfolding get_pending_items
get_pending_items-length k limit st = ground (
  arith,
  length-take limit (order_by oldest_first (select (pending_in k) st.items)),
  length-order_by oldest_first (select (pending_in k) st.items),
  length-select (pending_in k) st.items,
)

some_selected :
    (k : Text) (is : List SendJobItem)
    → any (of_job k) is ≡ true
    → is_empty (select (of_job k) is) ≡ false
unfolding any select
some_selected k [] a = absurd cc
some_selected k (i ∷ is) a = ground (arith, some_selected k is)

-- A job with items has statistics, which count the items that wait.
pub get_job_stats-pending :
    (k : Text) (st : Store)
    → any (of_job k) st.items ≡ true
    → (stats : JobStats) × (get_job_stats k st ≡ some stats) × (stats.pending ≡ waiting k st)
unfolding get_job_stats pending_in
get_job_stats-pending k st a =
    let rows = select (of_job k) st.items in
    (
      record {
        total = length rows;
        pending = count (λ i. is_pending i.status) rows;
        queued = count (λ i. is_queued i.status) rows;
        sent = count (λ i. is_sent i.status) rows;
        failed = count (λ i. is_failed i.status) rows;
      },
      rw (get_job_stats, some_selected k st.items a) refl,
      count-select (λ i. is_pending i.status) (of_job k) st.items,
    )
