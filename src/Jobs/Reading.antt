-- ===== src/Jobs/Reading.antt =====
-- The queries of internal/web/repository/job.go, and what the jobs read through campaign.go,
-- recipient.go and template.go of the same folder. An error is one of reading a NULL into a Go value.
-- Rows with equal keys of an ORDER BY stay in the order of their insertion.
use sendry.Base.{
  ◌>>=◌, ◌||◌, ℕ, zero, suc, Bool, true, false, ◌&&◌, not, Option, none, some, List, [], ◌∷◌, Text,
  text_eq, is_empty, leb, if◌then◌else◌, find, count, select, order_by, take, drop, length,
}
use sendry.Jobs.{
  JobStatus, draft, scheduled, running, paused, completed, cancelled, failed, ItemStatus, pending,
  queued, sent, JobStats, SendJob, SendJobItem, Recipient, Campaign, CampaignVariant, Template,
  Store, is_running, is_scheduled, is_pending, is_queued, is_sent, is_failed, is_active,
}

-- LIMIT is added to a query only if it is not 0.
unfoldable pub with_limit {ℓ} : {A : Type ℓ} → ℕ → List A → List A
with_limit zero rows = rows
with_limit (suc n) rows = take (suc n) rows

-- So is OFFSET, which SQLite does not parse where no LIMIT comes before it.
unfoldable pub paged {ℓ} : {A : Type ℓ} → ℕ → ℕ → List A → Option (List A)
paged zero zero rows = some rows
paged zero (suc offset) rows = none
paged (suc n) offset rows = some (take (suc n) (drop offset rows))

unfoldable pub get_by_id : Text → Store → Option SendJob
get_by_id id st = find (λ j. text_eq j.id id) st.jobs

unfoldable pub of_job : Text → SendJobItem → Bool
of_job id i = text_eq i.job_id id

-- SUM over no rows is NULL, which cannot be read into an int: a job without items has no statistics.
unfoldable pub get_job_stats : Text → Store → Option JobStats
get_job_stats id st = if is_empty rows then none else some stats
  where
    rows : List SendJobItem
    rows = select (of_job id) st.items

    stats : JobStats
    stats = record {
      total = length rows;
      pending = count (λ i. is_pending i.status) rows;
      queued = count (λ i. is_queued i.status) rows;
      sent = count (λ i. is_sent i.status) rows;
      failed = count (λ i. is_failed i.status) rows;
    }

unfoldable pub get_running_jobs : Store → List SendJob
get_running_jobs st =
    order_by (λ a b. leb a.created_at b.created_at) (select (λ j. is_running j.status) st.jobs)

-- scheduled_at <= now is false for a NULL.
unfoldable pub is_due : ℕ → SendJob → Bool
is_due now j = elim j.scheduled_at [ none ↦ false | some t ↦ is_scheduled j.status && leb t now ]

-- NULL comes first.
unfoldable pub earlier : Option ℕ → Option ℕ → Bool
earlier none t = true
earlier (some s) none = false
earlier (some s) (some t) = leb s t

unfoldable pub get_scheduled_jobs_due : ℕ → Store → List SendJob
get_scheduled_jobs_due now st =
    order_by (λ a b. earlier a.scheduled_at b.scheduled_at) (select (is_due now) st.jobs)

unfoldable pub oldest_first : SendJobItem → SendJobItem → Bool
oldest_first a b = leb a.created_at b.created_at

-- LEFT JOIN recipients: the columns are empty for a recipient that is not there.
unfoldable pub recipient_of : SendJobItem → Store → Option Recipient
recipient_of i st = find (λ r. text_eq r.id i.recipient_id) st.recipients

unfoldable pub pending_in : Text → SendJobItem → Bool
pending_in id i = of_job id i && is_pending i.status

unfoldable pub get_pending_items : Text → ℕ → Store → List SendJobItem
get_pending_items id limit st = take limit (order_by oldest_first (select (pending_in id) st.items))

unfoldable pub is_tracked : SendJobItem → Bool
is_tracked i = elim i.sendry_msg_id [
  | none ↦ false
  | some msg ↦ is_queued i.status && not (is_empty msg)
]

unfoldable pub get_queued_items : ℕ → Store → List SendJobItem
get_queued_items limit st = take limit (order_by oldest_first (select is_tracked st.items))

unfoldable pub get_campaign : Text → Store → Option Campaign
get_campaign id st = find (λ c. text_eq c.id id) st.campaigns

unfoldable pub get_variants : Text → Store → List CampaignVariant
get_variants id st =
    order_by (λ a b. leb a.created_at b.created_at)
      (select (λ v. text_eq v.campaign_id id) st.variants)

unfoldable pub get_template : Text → Store → Option Template
get_template id st = find (λ t. text_eq t.id id) st.templates

-- ListRecipients of the active recipients of a list, without a search, a tag or an offset.
unfoldable pub list_active : Text → ℕ → Store → List Recipient
list_active list limit st = with_limit limit (
    order_by (λ a b. leb b.created_at a.created_at)
      (select (λ r. text_eq r.list_id list && is_active r.status) st.recipients))

-- Reading a NULL into a string fails, and with it the whole list.
unfoldable pub readable : List SendJobItem → Bool
readable [] = true
readable (i ∷ is) =
    let rest = readable is in
    elim i.sendry_msg_id [
      | none ↦ false
      | some msg ↦ elim i.error [ none ↦ false | some err ↦ rest ]
    ]

unfoldable pub has_item_status : Option ItemStatus → SendJobItem → Bool
has_item_status none i = true
has_item_status (some pending) i = is_pending i.status
has_item_status (some queued) i = is_queued i.status
has_item_status (some sent) i = is_sent i.status
has_item_status (some failed) i = is_failed i.status

-- The columns hold the text of a status.
unfoldable pub same_status : JobStatus → JobStatus → Bool
same_status draft draft = true
same_status scheduled scheduled = true
same_status running running = true
same_status paused paused = true
same_status completed completed = true
same_status failed failed = true
same_status cancelled cancelled = true
same_status _ _ = false

-- The items of the page and how many there are in all.
unfoldable pub list_items : Text → Option ItemStatus → ℕ → ℕ → Store → Option (List SendJobItem × ℕ)
list_items id status limit offset st = paged limit offset (order_by oldest_first rows) >>= λ shown.
    if readable shown then some (shown, length rows) else none
  where
    rows : List SendJobItem
    rows = select (λ i. of_job id i && has_item_status status i) st.items

unfoldable pub has_status : Option JobStatus → SendJob → Bool
has_status none j = true
has_status (some s) j = same_status s j.status

unfoldable pub in_campaign : Text → SendJob → Bool
in_campaign id j = is_empty id || text_eq j.campaign_id id

-- The latest jobs first.
unfoldable pub list_jobs : Text → Option JobStatus → ℕ → ℕ → Store → Option (List SendJob × ℕ)
list_jobs campaign status limit offset st =
    paged limit offset (order_by (λ a b. leb b.created_at a.created_at) rows) >>= λ shown.
    some (shown, length rows)
  where
    rows : List SendJob
    rows = select (λ j. in_campaign campaign j && has_status status j) st.jobs
