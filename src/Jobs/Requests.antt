-- ===== src/Jobs/Requests.antt =====
-- internal/web/handlers/jobs.go and the function CampaignSend of internal/web/handlers/campaigns.go:
-- what the web interface does with a job. The audit log is left out.
use sendry.Base.{
  ℕ, zero, suc, ◌+◌, ◌%◌, Bool, true, false, ◌&&◌, ◌||◌, Option, none, some, List, [], ◌∷◌, ◌++◌,
  Text, codes, is_empty, ltb, ◌==◌, if◌then◌else◌, length, ◌>>=◌,
}
use sendry.Jobs.{
  JobStatus, draft, scheduled, running, paused, completed, failed, cancelled, SendJob, SendJobItem,
  pending, Recipient, CampaignVariant, Store, is_running, is_scheduled,
}
use sendry.Jobs.Repository.{update_status, create, create_items}
use sendry.Jobs.Reading.{get_by_id, get_campaign, get_variants, list_active}

pub data Response : Type 0 where
  see_other : Text → Response
  refused : ℕ → Text → Response

unfoldable pub is_paused : JobStatus → Bool
is_paused paused = true
is_paused _ = false

-- fmt of a status, as the column holds it.
unfoldable pub status_text : JobStatus → Text
status_text draft = codes "draft"
status_text scheduled = codes "scheduled"
status_text running = codes "running"
status_text paused = codes "paused"
status_text completed = codes "completed"
status_text failed = codes "failed"
status_text cancelled = codes "cancelled"

abbrev pub to_job : Text → Response
to_job id = see_other (codes "/jobs/" ++ id)

abbrev pub job_not_found : Response
job_not_found = refused 404 (codes "Job not found")

unfoldable pub job_pause : Text → ℕ → Store → Response × Store
job_pause id now st = elim (get_by_id id st) [
  | none ↦ (job_not_found, st)
  | some job ↦
      if is_running job.status
      then (to_job id, update_status id paused now st)
      else (refused 400 (codes "Can only pause running jobs"), st)
]

unfoldable pub job_resume : Text → ℕ → Store → Response × Store
job_resume id now st = elim (get_by_id id st) [
  | none ↦ (job_not_found, st)
  | some job ↦
      if is_paused job.status
      then (to_job id, update_status id running now st)
      else (refused 400 (codes "Can only resume paused jobs"), st)
]

unfoldable pub job_cancel : Text → ℕ → Store → Response × Store
job_cancel id now st = elim (get_by_id id st) [
  | none ↦ (job_not_found, st)
  | some job ↦
      if is_running job.status || is_paused job.status || is_scheduled job.status
      then (to_job id, update_status id cancelled now st)
      else (refused 400 (codes "Cannot cancel job in status: " ++ status_text job.status), st)
]

-- The failed items are not touched.
unfoldable pub job_retry : Text → ℕ → Store → Response × Store
job_retry id now st = elim (get_by_id id st) [
  | none ↦ (job_not_found, st)
  | some job ↦ (to_job id, update_status id running now st)
]

-- The form of CampaignSend: `dry_run_limit` is 0 if it is not a positive number, and `scheduled_at`
-- is `none` if it is no time.
pub record SendForm : Type 0 where
  pub recipient_list_id : Text
  pub servers : List Text
  pub strategy : Text
  pub dry_run : Bool
  pub dry_run_limit : ℕ
  pub scheduled_at : Option ℕ

unfoldable pub get_elem? {ℓ} : {A : Type ℓ} → List A → ℕ → Option A
get_elem? [] n = none
get_elem? (x ∷ xs) zero = some x
get_elem? (x ∷ xs) (suc n) = get_elem? xs n

-- What the literal of an item leaves out has the value of its type.
abbrev pub item_for : Text → Recipient → CampaignVariant → Text → SendJobItem
item_for job_id r v server = record {
  id = [];
  job_id = job_id;
  recipient_id = r.id;
  variant_id = v.id;
  server_name = server;
  status = pending;
  sendry_msg_id = none;
  error = none;
  queued_at = none;
  sent_at = none;
  created_at = 0;
}

-- The loop over the recipients; `none` is a panic on an index out of range.
unfoldable pub assign_items :
    Text → List CampaignVariant → List Text → ℕ → ℕ → List Recipient → Option (List SendJobItem)
assign_items job_id variants servers server_idx variant_idx [] = some []
assign_items job_id variants servers server_idx variant_idx (r ∷ rs) =
    let rest =
      assign_items job_id variants servers ((server_idx + 1) % length servers)
        (if ltb 1 (length variants) then (variant_idx + 1) % length variants else variant_idx) rs in
    get_elem? variants variant_idx >>= λ v. get_elem? servers server_idx >>= λ server.
    rest >>= λ items. some (item_for job_id r v server ∷ items)

-- uuid.New for each item, in their order.
unfoldable pub with_ids : (ℕ → Text) → ℕ → List SendJobItem → List (Text × SendJobItem)
with_ids ids n [] = []
with_ids ids n (i ∷ is) = (ids n, i) ∷ with_ids ids (suc n) is

unfoldable pub effective_limit : SendForm → ℕ
effective_limit f = if f.dry_run then (if f.dry_run_limit == 0 then 10 else f.dry_run_limit) else 0

unfoldable pub recipient_limit : SendForm → ℕ
recipient_limit f = if f.dry_run && ltb 0 (effective_limit f) then effective_limit f else 100_000

-- The job is asked to be scheduled if the form has a time.
unfoldable pub requested_job : Text → SendForm → SendJob
requested_job campaign_id f = record {
  id = [];
  campaign_id = campaign_id;
  recipient_list_id = f.recipient_list_id;
  status = elim f.scheduled_at [ none ↦ draft | some t ↦ scheduled ];
  scheduled_at = f.scheduled_at;
  started_at = none;
  completed_at = none;
  servers = f.servers;
  strategy = if is_empty f.strategy then codes "round-robin" else f.strategy;
  stats = none;
  dry_run = f.dry_run;
  dry_run_limit = effective_limit f;
  created_at = 0;
  updated_at = 0;
}

unfoldable pub start_unless_scheduled : ℕ → SendJob → Store → Store
start_unless_scheduled now job st = elim job.scheduled_at [
  | none ↦ update_status job.id running now st
  | some t ↦ st
]

-- CampaignSend at the time `now`, with the ids that uuid.New gives the job and its items.
unfoldable pub campaign_send :
    Text → SendForm → Text → (ℕ → Text) → ℕ → Store → Option (Response × Store)
campaign_send campaign_id f job_id ids now st = elim (get_campaign campaign_id st) [
  | none ↦ some (refused 404 (codes "Campaign not found"), st)
  | some c ↦
      let variants = get_variants campaign_id st in
      if is_empty f.recipient_list_id
      then some (refused 400 (codes "Recipient list is required"), st)
      else if is_empty f.servers
      then some (refused 400 (codes "At least one server is required"), st)
      else if is_empty variants
      then some (refused 400 (codes "Campaign has no variants configured"), st)
      else let (job, st') = create job_id now (requested_job campaign_id f) st in
        assign_items job.id variants f.servers 0 0
          (list_active f.recipient_list_id (recipient_limit f) st')
        >>= λ items. some (
          to_job job.id,
          start_unless_scheduled now job (create_items now (with_ids ids 0 items) st'),
        )
]
