-- ===== src/Jobs/Changes.antt =====
-- What the statements of internal/web/repository/job.go keep of the rows.
use sendry.Base.{
  ℕ, ◌≡◌, refl, ◌+◌, ◌≤◌, Bool, false, ◌&&◌, none, some, List, [], ◌∷◌, Text, text_eq, text_eq_iff,
  All, any, arith, find, count, select, has_key, DistinctKeys, if◌then◌else◌,
}
use sendry.Jobs.{SendJob, SendJobItem, pending, queued, sent, failed, ItemStatus, is_pending}
use sendry.Jobs.Repository.{update_job, update_item, with_item_status}
use sendry.Jobs.Reading.{pending_in, of_job}

abbrev pub job_key : SendJob → Text
job_key j = j.id

abbrev pub item_key : SendJobItem → Text
item_key i = i.id

-- An update of a job that keeps the columns that name rows.
abbrev pub KeepsJob : (SendJob → SendJob) → Type 0
KeepsJob f = (j : SendJob) → ((f j).id ≡ j.id) × ((f j).campaign_id ≡ j.campaign_id)

-- An update of an item that takes it out of the pending ones.
abbrev pub Settles : (SendJobItem → SendJobItem) → Type 0
Settles f =
    (i : SendJobItem)
    → ((f i).id ≡ i.id) × ((f i).job_id ≡ i.job_id) × (is_pending (f i).status ≡ false)

pub with_item_status-Settles :
    (s : ItemStatus) (msg err : Text) (now : ℕ)
    → is_pending s ≡ false
    → Settles (with_item_status s msg err now)
unfolding with_item_status is_pending
with_item_status-Settles queued msg err now h i = (refl, refl, refl)
with_item_status-Settles sent msg err now h i = (refl, refl, refl)
with_item_status-Settles failed msg err now h i = (refl, refl, refl)
with_item_status-Settles pending msg err now h i = absurd cc

pub has_key-update_job :
    (f : SendJob → SendJob) (k id : Text) (js : List SendJob)
    → KeepsJob f
    → has_key job_key k (update_job f id js) ≡ has_key job_key k js
unfolding has_key any update_job
has_key-update_job f k id [] h = refl
has_key-update_job f k id (j ∷ js) h = ground (arith, h j, has_key-update_job f k id js h)

pub DistinctKeys-update_job :
    (f : SendJob → SendJob) (id : Text) (js : List SendJob)
    → KeepsJob f
    → DistinctKeys job_key js
    → DistinctKeys job_key (update_job f id js)
unfolding update_job
DistinctKeys-update_job f id [] h d = tt
DistinctKeys-update_job f id (j ∷ js) h d =
    ground (arith, h j, has_key-update_job f j.id id js h, DistinctKeys-update_job f id js h d.1)

pub All-update_job :
    (P : SendJob → Type 0) (f : SendJob → SendJob) (id : Text) (js : List SendJob)
    → ((j : SendJob) → P j → P (f j))
    → All P js
    → All P (update_job f id js)
unfolding update_job
All-update_job P f id [] h a = tt
All-update_job P f id (j ∷ js) h a = ground (arith, h j, All-update_job P f id js h a.1)

-- The row of a job is found as before, or changed if it is the one updated.
pub find-update_job :
    (f : SendJob → SendJob) (k id : Text) (js : List SendJob)
    → KeepsJob f
    → find (λ j. text_eq j.id k) (update_job f id js) ≡ (
        if text_eq k id
        then elim (find (λ j. text_eq j.id k) js) [ none ↦ none | some j ↦ some (f j) ]
        else find (λ j. text_eq j.id k) js)
unfolding find update_job
find-update_job f k id [] h = ground arith
find-update_job f k id (j ∷ js) h = ground (
  arith,
  h j,
  text_eq_iff j.id k,
  text_eq_iff j.id id,
  text_eq_iff k id,
  find-update_job f k id js h,
)

pub has_key-update_item :
    (f : SendJobItem → SendJobItem) (k id : Text) (is : List SendJobItem)
    → Settles f
    → has_key item_key k (update_item f id is) ≡ has_key item_key k is
unfolding has_key any update_item
has_key-update_item f k id [] h = refl
has_key-update_item f k id (i ∷ is) h = ground (arith, h i, has_key-update_item f k id is h)

pub DistinctKeys-update_item :
    (f : SendJobItem → SendJobItem) (id : Text) (is : List SendJobItem)
    → Settles f
    → DistinctKeys item_key is
    → DistinctKeys item_key (update_item f id is)
unfolding update_item
DistinctKeys-update_item f id [] h d = tt
DistinctKeys-update_item f id (i ∷ is) h d =
    ground (arith, h i, has_key-update_item f i.id id is h, DistinctKeys-update_item f id is h d.1)

pub any-of_job-update_item :
    (f : SendJobItem → SendJobItem) (j id : Text) (is : List SendJobItem)
    → Settles f
    → any (of_job j) (update_item f id is) ≡ any (of_job j) is
unfolding any update_item of_job
any-of_job-update_item f j id [] h = refl
any-of_job-update_item f j id (i ∷ is) h = ground (arith, h i, any-of_job-update_item f j id is h)

-- Some row has the id and passes the test.
unfoldable pub has_row : (SendJobItem → Bool) → Text → List SendJobItem → Bool
has_row p id = any (λ i. text_eq i.id id && p i)

abbrev pub awaits : SendJobItem → Bool
awaits i = is_pending i.status

-- An update after which no row passes the test takes away the rows of its id.
pub has_row-update_item :
    (p : SendJobItem → Bool) (f : SendJobItem → SendJobItem) (k id : Text) (is : List SendJobItem)
    → Settles f
    → ((i : SendJobItem) → p (f i) ≡ false)
    → has_row p k (update_item f id is) ≡ (if text_eq k id then false else has_row p k is)
unfolding has_row any update_item
has_row-update_item p f k id [] h q = ground arith
has_row-update_item p f k id (i ∷ is) h q = ground (
  arith,
  h i,
  q i,
  text_eq_iff i.id k,
  text_eq_iff i.id id,
  text_eq_iff k id,
  has_row-update_item p f k id is h q,
)

pub Settles-pending_in :
    (f : SendJobItem → SendJobItem) (j : Text)
    → Settles f
    → (i : SendJobItem) → pending_in j (f i) ≡ false
unfolding pending_in
Settles-pending_in f j h i = ground (arith, h i)

-- An update that meets no pending item of the job leaves the job's pending items as they are.
pub select-update_item :
    (f : SendJobItem → SendJobItem) (j id : Text) (is : List SendJobItem)
    → Settles f
    → has_row (pending_in j) id is ≡ false
    → select (pending_in j) (update_item f id is) ≡ select (pending_in j) is
unfolding has_row any update_item pending_in of_job select
select-update_item f j id [] h e = refl
select-update_item f j id (i ∷ is) h e = ground (arith, h i, select-update_item f j id is h)

pub count-update_item :
    (f : SendJobItem → SendJobItem) (j id : Text) (is : List SendJobItem)
    → Settles f
    → count (pending_in j) (update_item f id is) + (if has_row (pending_in j) id is then 1 else 0)
      ≤ count (pending_in j) is
unfolding has_row any update_item pending_in of_job count
count-update_item f j id [] h = ground arith
count-update_item f j id (i ∷ is) h = ground (arith, h i, count-update_item f j id is h)
