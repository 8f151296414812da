-- ===== src/Jobs/Runs.antt =====
-- No item is handed to a mail server twice: internal/web/worker/worker.go, whatever is done with the
-- jobs through internal/web/handlers/jobs.go and internal/web/handlers/campaigns.go.
use sendry.Base.{
  ℕ, ◌≡◌, false, List, [], ◌∷◌, ◌++◌, Text, inl, inr, text_eq_iff, All, arith, has_key,
  DistinctKeys-append, Option-cases, any,
}
use sendry.Jobs.{SendJob, SendJobItem, Store, Handed}
use sendry.Jobs.Repository.{update_status, create_items, create, new_items}
use sendry.Jobs.Mails.{Outside}
use sendry.Jobs.Requests.{campaign_send, SendForm, with_ids, start_unless_scheduled}
use sendry.Jobs.Changes.{item_key, awaits, has_row}
use sendry.Jobs.Statements.{no_row}
use sendry.Jobs.Creating.{AllDifferent, has_key-new, distinct-new, fresh-new, has_row-append}
use sendry.Jobs.Campaigns.{
  campaign_send-cases, made, panicked, declined, accepted, Requested, job_pause-Requested,
  job_resume-Requested, job_cancel-Requested, job_retry-Requested,
}
use sendry.Jobs.Events.{
  Event, ticks, pauses, resumes, cancels, retries, sends, happen, run, IsFresh, AllFresh, store_of,
}
use sendry.Jobs.Once.{HandedOnce, Once, handed_key, process_jobs-Once}

unhanded_rows :
    (ids : ℕ → Text) (now : ℕ) (is old : List SendJobItem) (hs : List Handed)
    → ((n : ℕ) → has_key handed_key (ids n) hs ≡ false)
    → All (λ (h : Handed). has_row awaits h.item_id old ≡ false) hs
    → All
        (λ (h : Handed).
          has_row awaits h.item_id (old ++ new_items now (with_ids ids 0 is)) ≡ false)
        hs
unfolding has_key any
unhanded_rows ids now is old [] f a = tt
unhanded_rows ids now is old (h ∷ hs) f a =
    let made = new_items now (with_ids ids 0 is) in
    let absent : has_key item_key h.item_id made ≡ false =
      has_key-new ids now h.item_id 0 is (λ n z.
        ground (arith, f n, text_eq_iff (ids n) h.item_id, text_eq_iff h.item_id (ids n))) in
    (
      ground (arith, has_row-append awaits h.item_id old made, no_row awaits h.item_id made absent),
      unhanded_rows ids now is old hs (λ n. ground (arith, f n)) a.1,
    )

-- The new items leave the others as they are.
create_items-Once :
    (ids : ℕ → Text) (now : ℕ) (is old : List SendJobItem) (hs : List Handed)
    → AllDifferent ids
    → ((n : ℕ) → has_key item_key (ids n) old ≡ false)
    → ((n : ℕ) → has_key handed_key (ids n) hs ≡ false)
    → HandedOnce old hs
    → HandedOnce (old ++ new_items now (with_ids ids 0 is)) hs
create_items-Once ids now is old hs d fi fh o = record {
  distinct_items =
      DistinctKeys-append item_key old _ o.distinct_items (distinct-new ids now 0 is d)
        (fresh-new ids now 0 is old fi);
  settled = unhanded_rows ids now is old hs fh o.settled;
  distinct = o.distinct;
}

start_unless_scheduled-Once :
    (now : ℕ) (job : SendJob) (st : Store) → Once st → Once (start_unless_scheduled now job st)
unfolding start_unless_scheduled update_status
start_unless_scheduled-Once now job st o = elim (Option-cases job.scheduled_at) [
  | inl e ↦ rw (start_unless_scheduled, e) o
  | inr (t, e) ↦ rw (start_unless_scheduled, e) o
]

Requested-Once :
    (id : Text) (now : ℕ) (st st' : Store) → Requested id now st st' → Once st → Once st'
unfolding update_status
Requested-Once id now st st' (inl e) o = rw e o
Requested-Once id now st st' (inr (s, p, e)) o = rw e o

-- A request that is refused changes nothing; the others make a job and its items.
campaign_send-Once :
    (c : Text) (f : SendForm) (job_id : Text) (ids : ℕ → Text) (now : ℕ) (st : Store)
    → AllDifferent ids
    → ((n : ℕ) → has_key item_key (ids n) st.items ≡ false)
    → ((n : ℕ) → has_key handed_key (ids n) st.handed ≡ false)
    → Once st
    → Once (store_of st (campaign_send c f job_id ids now st))
unfolding create create_items
campaign_send-Once c f job_id ids now st d fi fh o =
    elim (campaign_send-cases c f job_id ids now st) [
      | panicked e ↦ rw e o
      | declined code why e ↦ rw e o
      | accepted is e ↦ rw e (
          start_unless_scheduled-Once now (made c f job_id ids now st).0
            (create_items now (with_ids ids 0 is) (made c f job_id ids now st).1)
            (create_items-Once ids now is st.items st.handed d fi fh o))
    ]

happen-Once :
    (sv : Outside) (batch_size : ℕ) (e : Event) (st : Store)
    → IsFresh sv batch_size e st
    → Once st
    → Once (happen sv batch_size e st)
unfolding happen
happen-Once sv batch_size (ticks now) st f o = process_jobs-Once sv batch_size now st o
happen-Once sv batch_size (pauses id now) st f o =
    Requested-Once id now st _ (job_pause-Requested id now st) o
happen-Once sv batch_size (resumes id now) st f o =
    Requested-Once id now st _ (job_resume-Requested id now st) o
happen-Once sv batch_size (cancels id now) st f o =
    Requested-Once id now st _ (job_cancel-Requested id now st) o
happen-Once sv batch_size (retries id now) st f o =
    Requested-Once id now st _ (job_retry-Requested id now st) o
happen-Once sv batch_size (sends c f job_id ids now) st fr o =
    campaign_send-Once c f job_id ids now st fr.0 fr.1 fr.2 o

-- Whatever ticks of the worker and requests of the web interface follow a store in which no item was
-- handed over twice and no item that was handed over is pending, and if uuid.New gives the items new
-- and different ids, it stays so: also after a pause, a cancellation or a retry of its job, Send is
-- never called again for an item that it was called for, whether that call succeeded or failed. So a
-- retry of a job sends no item again for which a call of Send has failed.
pub run-HandedOnce :
    (sv : Outside) (batch_size : ℕ) (es : List Event) (st : Store)
    → AllFresh sv batch_size es st
    → HandedOnce st.items st.handed
    → let st' = run sv batch_size es st in HandedOnce st'.items st'.handed
unfolding run
run-HandedOnce sv batch_size [] st f o = o
run-HandedOnce sv batch_size (e ∷ es) st f o =
    run-HandedOnce sv batch_size es (happen sv batch_size e st) f.1
      (happen-Once sv batch_size e st f.0 o)
