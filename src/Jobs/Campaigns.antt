-- ===== src/Jobs/Campaigns.antt =====
-- What internal/web/handlers/jobs.go and the function CampaignSend of internal/web/handlers/campaigns.go
-- make of the store.
use sendry.Base.{
  ℕ, ◌≡◌, refl, false, none, some, List, Text, ◌⊎◌, inl, inr, is_empty, codes, Option-cases,
  Bool-cases, ◌||◌,
}
use sendry.Jobs.{
  Store, SendJob, SendJobItem, JobStatus, running, paused, cancelled, is_running, is_scheduled,
}
use sendry.Jobs.Repository.{update_status, create, create_items}
use sendry.Jobs.Reading.{get_by_id, get_campaign, get_variants, list_active}
use sendry.Jobs.Requests.{
  refused, to_job, job_pause, job_resume, job_cancel, job_retry, is_paused, campaign_send, SendForm,
  with_ids, start_unless_scheduled, assign_items, requested_job, recipient_limit,
}

-- A request for a job leaves the store, or gives the job a status, which is never `scheduled`.
abbrev pub Requested : Text → ℕ → Store → Store → Type 0
Requested id now st st' =
    (st' ≡ st) ⊎ ((s : JobStatus) × (is_scheduled s ≡ false) × (st' ≡ update_status id s now st))

module _ (id : Text) (now : ℕ) (st : Store) where
  pub job_pause-Requested : Requested id now st (job_pause id now st).1
  unfolding job_pause is_scheduled
  job_pause-Requested = elim (Option-cases (get_by_id id st)) [
    | inl e ↦ inl (rw (job_pause, e) refl)
    | inr (job, e) ↦ elim (Bool-cases (is_running job.status)) [
      | inl b ↦ inr (paused, refl, rw (job_pause, e, b) refl)
      | inr b ↦ inl (rw (job_pause, e, b) refl)
    ]
  ]

  pub job_resume-Requested : Requested id now st (job_resume id now st).1
  unfolding job_resume is_scheduled
  job_resume-Requested = elim (Option-cases (get_by_id id st)) [
    | inl e ↦ inl (rw (job_resume, e) refl)
    | inr (job, e) ↦ elim (Bool-cases (is_paused job.status)) [
      | inl b ↦ inr (running, refl, rw (job_resume, e, b) refl)
      | inr b ↦ inl (rw (job_resume, e, b) refl)
    ]
  ]

  pub job_cancel-Requested : Requested id now st (job_cancel id now st).1
  unfolding job_cancel is_scheduled
  job_cancel-Requested = elim (Option-cases (get_by_id id st)) [
    | inl e ↦ inl (rw (job_cancel, e) refl)
    | inr (job, e) ↦
        elim (Bool-cases
          (is_running job.status || is_paused job.status || is_scheduled job.status)) [
            | inl b ↦ inr (cancelled, refl, rw (job_cancel, e, b) refl)
            | inr b ↦ inl (rw (job_cancel, e, b) refl)
          ]
  ]

  pub job_retry-Requested : Requested id now st (job_retry id now st).1
  unfolding job_retry is_scheduled
  job_retry-Requested = elim (Option-cases (get_by_id id st)) [
    | inl e ↦ inl (rw (job_retry, e) refl)
    | inr (job, e) ↦ inr (running, refl, rw (job_retry, e) refl)
  ]

module _ (c : Text) (f : SendForm) (job_id : Text) (ids : ℕ → Text) (now : ℕ) (st : Store) where
  -- The row of the job, and the store with it.
  abbrev pub made : SendJob × Store
  made = create job_id now (requested_job c f) st

  -- The answer is a refusal, or the job is there with its items.
  pub data Sent : Type 0 where
    panicked : campaign_send c f job_id ids now st ≡ none → Sent
    declined :
        (code : ℕ) (why : Text)
        → campaign_send c f job_id ids now st ≡ some (refused code why, st)
        → Sent
    accepted :
        (is : List SendJobItem)
        → campaign_send c f job_id ids now st
          ≡ some (
            to_job job_id,
            start_unless_scheduled now made.0 (create_items now (with_ids ids 0 is) made.1),
          )
        → Sent

  -- A request that is refused changes nothing; the others make a job and its items.
  pub campaign_send-cases : Sent
  unfolding campaign_send create
  campaign_send-cases = elim (Option-cases (get_campaign c st)) [
    | inl e ↦ declined 404 (codes "Campaign not found") (rw (campaign_send, e) refl)
    | inr (campaign, e) ↦ elim (Bool-cases (is_empty f.recipient_list_id)) [
      | inl l ↦ declined 400 (codes "Recipient list is required") (rw (campaign_send, e, l) refl)
      | inr l ↦ elim (Bool-cases (is_empty f.servers)) [
        | inl s ↦
            declined 400 (codes "At least one server is required")
              (rw (campaign_send, e, l, s) refl)
        | inr s ↦ elim (Bool-cases (is_empty (get_variants c st))) [
          | inl v ↦
              declined 400 (codes "Campaign has no variants configured")
                (rw (campaign_send, e, l, s, v) refl)
          | inr v ↦
              elim (Option-cases (
                assign_items made.0.id (get_variants c st) f.servers 0 0
                  (list_active f.recipient_list_id (recipient_limit f) made.1))) [
                    | inl a ↦ panicked (rw (campaign_send, e, l, s, v, a) refl)
                    | inr (is, a) ↦ accepted is (rw (campaign_send, e, l, s, v, a) refl)
                  ]
        ]
      ]
    ]
  ]
