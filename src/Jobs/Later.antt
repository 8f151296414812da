-- ===== src/Jobs/Later.antt =====
-- What becomes of a campaign that CampaignSend of internal/web/handlers/campaigns.go is asked to send
-- later.
use sendry.Base.{ℕ, ◌≡◌, false, some, List, Text, has_key}
use sendry.Jobs.{SendJobItem, Store}
use sendry.Jobs.Repository.{create_items}
use sendry.Jobs.Requests.{SendForm, with_ids}
use sendry.Jobs.Changes.{job_key, item_key}
use sendry.Jobs.Creating.{AllDifferent}
use sendry.Jobs.Campaigns.{made}
use sendry.Jobs.Kept.{Sound}
use sendry.Jobs.Idle.{Idle}

module _ (c : Text) (f : SendForm) (job_id : Text) (ids : ℕ → Text) (now : ℕ) (st : Store) (t : ℕ)
    (s : Sound st) (new_job : has_key job_key job_id st.jobs ≡ false) (d : AllDifferent ids)
    (new_ids : (n : ℕ) → has_key item_key (ids n) st.items ≡ false)
    (later : f.scheduled_at ≡ some t) where
  abbrev waiting : List SendJobItem → Store
  waiting is = create_items now (with_ids ids 0 is) (made c f job_id ids now st).1
