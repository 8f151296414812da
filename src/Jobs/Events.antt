-- ===== src/Jobs/Events.antt =====
-- What happens to the store of the campaigns: ticks of the worker and requests of the web interface,
-- in any order.
use sendry.Base.{ℕ, ◌≡◌, false, Option, none, some, List, [], ◌∷◌, Text, has_key}
use sendry.Jobs.{Store, Handed}
use sendry.Jobs.Mails.{Outside}
use sendry.Jobs.Worker.{process_jobs}
use sendry.Jobs.Requests.{
  Response, job_pause, job_resume, job_cancel, job_retry, campaign_send, SendForm,
}
use sendry.Jobs.Changes.{item_key}
use sendry.Jobs.Creating.{AllDifferent}

pub data Event : Type 0 where
  ticks : ℕ → Event
  pauses : Text → ℕ → Event
  resumes : Text → ℕ → Event
  cancels : Text → ℕ → Event
  retries : Text → ℕ → Event
  -- The campaign, the form, the id of the job and those of the items.
  sends : Text → SendForm → Text → (ℕ → Text) → ℕ → Event

abbrev pub store_of : Store → Option (Response × Store) → Store
store_of st none = st
store_of st (some r) = r.1

module _ (sv : Outside) (batch_size : ℕ) where
  unfoldable pub happen : Event → Store → Store
  happen (ticks now) st = process_jobs sv batch_size now st
  happen (pauses id now) st = (job_pause id now st).1
  happen (resumes id now) st = (job_resume id now st).1
  happen (cancels id now) st = (job_cancel id now st).1
  happen (retries id now) st = (job_retry id now st).1
  happen (sends c f job_id ids now) st = store_of st (campaign_send c f job_id ids now st)

  unfoldable pub run : List Event → Store → Store
  run [] st = st
  run (e ∷ es) st = run es (happen e st)

  -- The ids that uuid.New gives are new.
  abbrev pub IsFresh : Event → Store → Type 0
  IsFresh (sends c f job_id ids now) st =
      AllDifferent ids
      × ((n : ℕ) → has_key item_key (ids n) st.items ≡ false)
      × ((n : ℕ) → has_key (λ (h : Handed). h.item_id) (ids n) st.handed ≡ false)
  IsFresh _ st = Unit {0}

  abbrev pub AllFresh : List Event → Store → Type 0
  AllFresh [] st = Unit {0}
  AllFresh (e ∷ es) st = IsFresh e st × AllFresh es (happen e st)
