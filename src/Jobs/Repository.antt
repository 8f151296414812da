-- ===== src/Jobs/Repository.antt =====
-- The statements of internal/web/repository/job.go that write. The database answers every statement.
use sendry.Base.{ℕ, not, none, some, List, [], ◌∷◌, ◌++◌, Text, text_eq, if◌then◌else◌, select}
use sendry.Jobs.{
  JobStatus, draft, running, completed, failed, cancelled, ItemStatus, pending, queued, sent,
  JobStats, SendJob, SendJobItem, Store,
}

unfoldable pub create : Text → ℕ → SendJob → Store → SendJob × Store
create id now job st =
    let made = record job { id = id; status = draft; created_at = now; updated_at = now } in
    (made, record st { jobs = st.jobs ++ (made ∷ []) })

unfoldable pub update_job : (SendJob → SendJob) → Text → List SendJob → List SendJob
update_job f id [] = []
update_job f id (j ∷ js) =
    let rest = update_job f id js in if text_eq j.id id then f j ∷ rest else j ∷ rest

-- COALESCE(?, started_at) and the time of the end.
unfoldable pub set_status : JobStatus → ℕ → SendJob → SendJob
set_status running now j = record j {
  status = running;
  started_at = some now;
  completed_at = none;
  updated_at = now;
}
set_status completed now j = record j {
  status = completed;
  completed_at = some now;
  updated_at = now;
}
set_status failed now j = record j { status = failed; completed_at = some now; updated_at = now }
set_status cancelled now j = record j {
  status = cancelled;
  completed_at = some now;
  updated_at = now;
}
set_status s now j = record j { status = s; completed_at = none; updated_at = now }

unfoldable pub update_status : Text → JobStatus → ℕ → Store → Store
update_status id s now st = record st { jobs = update_job (set_status s now) id st.jobs }

unfoldable pub update_stats : Text → JobStats → ℕ → Store → Store
update_stats id stats now st = record st {
  jobs = update_job (λ j. record j { stats = some stats; updated_at = now }) id st.jobs;
}

-- ON DELETE CASCADE takes the items of the job away.
unfoldable pub delete_job : Text → Store → Store
delete_job id st = record st {
  jobs = select (λ j. not (text_eq j.id id)) st.jobs;
  items = select (λ i. not (text_eq i.job_id id)) st.items;
}

unfoldable pub new_item : Text → ℕ → SendJobItem → SendJobItem
new_item id now i = record i {
  id = id;
  status = pending;
  sendry_msg_id = none;
  error = none;
  queued_at = none;
  sent_at = none;
  created_at = now;
}

unfoldable pub create_item : Text → ℕ → SendJobItem → Store → Store
create_item id now i st = record st { items = st.items ++ (new_item id now i ∷ []) }

-- Each item comes with the id that uuid.New gives it.
unfoldable pub new_items : ℕ → List (Text × SendJobItem) → List SendJobItem
new_items now [] = []
new_items now ((id, i) ∷ rest) = new_item id now i ∷ new_items now rest

unfoldable pub create_items : ℕ → List (Text × SendJobItem) → Store → Store
create_items now is st = record st { items = st.items ++ new_items now is }

unfoldable pub update_item :
    (SendJobItem → SendJobItem) → Text → List SendJobItem → List SendJobItem
update_item f id [] = []
update_item f id (i ∷ is) =
    let rest = update_item f id is in if text_eq i.id id then f i ∷ rest else i ∷ rest

unfoldable pub with_item_status : ItemStatus → Text → Text → ℕ → SendJobItem → SendJobItem
with_item_status queued msg err now i = record i {
  status = queued;
  sendry_msg_id = some msg;
  error = some err;
  queued_at = some now;
  sent_at = none;
}
with_item_status sent msg err now i = record i {
  status = sent;
  sendry_msg_id = some msg;
  error = some err;
  sent_at = some now;
}
with_item_status s msg err now i = record i {
  status = s;
  sendry_msg_id = some msg;
  error = some err;
  sent_at = none;
}

unfoldable pub update_item_status : Text → ItemStatus → Text → Text → ℕ → Store → Store
update_item_status id s msg err now st = record st {
  items = update_item (with_item_status s msg err now) id st.items;
}
