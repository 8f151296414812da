-- ===== src/Jobs/Statements.antt =====
-- What the statement UpdateItemStatus of internal/web/repository/job.go does to the rows that wait.
use sendry.Base.{
  ℕ, ◌≡◌, refl, ◌+◌, ◌≤◌, Bool, true, false, List, [], ◌∷◌, Text, text_eq, text_eq_iff, any, arith,
  count, select, has_key, DistinctKeys, if◌then◌else◌,
}
use sendry.Jobs.{SendJobItem, Store, ItemStatus, is_pending}
use sendry.Jobs.Repository.{with_item_status, update_item_status}
use sendry.Jobs.Reading.{pending_in, of_job}
use sendry.Jobs.Changes.{
  Settles, with_item_status-Settles, has_row, has_row-update_item, Settles-pending_in, awaits,
  item_key, DistinctKeys-update_item, select-update_item, count-update_item, any-of_job-update_item,
}

-- The same of the statement that gives an item a status other than `pending`.
module _ (id : Text) (s : ItemStatus) (msg err : Text) (now : ℕ) (st : Store)
    (h : is_pending s ≡ false) where
  settles : Settles (with_item_status s msg err now)
  settles = with_item_status-Settles s msg err now h

  pub waits-update_item_status :
      (j k : Text)
      → has_row (pending_in j) k (update_item_status id s msg err now st).items
        ≡ (if text_eq k id then false else has_row (pending_in j) k st.items)
  unfolding update_item_status
  waits-update_item_status j k =
      has_row-update_item (pending_in j) (with_item_status s msg err now) k id st.items settles
        (Settles-pending_in (with_item_status s msg err now) j settles)

  pub awaits-update_item_status :
      (k : Text)
      → has_row awaits k (update_item_status id s msg err now st).items
        ≡ (if text_eq k id then false else has_row awaits k st.items)
  unfolding update_item_status
  awaits-update_item_status k =
      has_row-update_item awaits (with_item_status s msg err now) k id st.items settles
        (λ i. (settles i).2)

  pub distinct-update_item_status :
      DistinctKeys item_key st.items
      → DistinctKeys item_key (update_item_status id s msg err now st).items
  unfolding update_item_status
  distinct-update_item_status =
      DistinctKeys-update_item (with_item_status s msg err now) id st.items settles

  pub select-update_item_status :
      (j : Text)
      → has_row (pending_in j) id st.items ≡ false
      → select (pending_in j) (update_item_status id s msg err now st).items
        ≡ select (pending_in j) st.items
  unfolding update_item_status
  select-update_item_status j =
      select-update_item (with_item_status s msg err now) j id st.items settles

  pub count-update_item_status :
      (j : Text)
      → count (pending_in j) (update_item_status id s msg err now st).items
          + (if has_row (pending_in j) id st.items then 1 else 0)
        ≤ count (pending_in j) st.items
  unfolding update_item_status
  count-update_item_status j =
      count-update_item (with_item_status s msg err now) j id st.items settles

  pub of_job-update_item_status :
      (j : Text)
      → any (of_job j) (update_item_status id s msg err now st).items ≡ any (of_job j) st.items
  unfolding update_item_status
  of_job-update_item_status j =
      any-of_job-update_item (with_item_status s msg err now) j id st.items settles

pub no_row :
    (p : SendJobItem → Bool) (id : Text) (is : List SendJobItem)
    → has_key item_key id is ≡ false
    → has_row p id is ≡ false
unfolding has_row has_key any
no_row p id [] h = refl
no_row p id (i ∷ is) h = ground (arith, no_row p id is)

-- Where the ids are distinct, a row that is a pending item of one job is none of another.
pub waits-other :
    (j k id : Text) (is : List SendJobItem)
    → DistinctKeys item_key is
    → has_row (pending_in k) id is ≡ true
    → text_eq k j ≡ false
    → has_row (pending_in j) id is ≡ false
unfolding has_row any pending_in of_job has_key
waits-other j k id [] d w n = refl
waits-other j k id (i ∷ is) d w n = ground (
  arith,
  text_eq_iff i.id id,
  text_eq_iff i.job_id k,
  text_eq_iff i.job_id j,
  text_eq_iff k j,
  no_row (pending_in k) i.id is d.0,
  no_row (pending_in j) i.id is d.0,
  waits-other j k id is d.1,
)

pub waits-awaits :
    (k id : Text) (is : List SendJobItem)
    → has_row (pending_in k) id is ≡ true
    → has_row awaits id is ≡ true
unfolding has_row any pending_in
waits-awaits k id [] w = w
waits-awaits k id (i ∷ is) w = ground (arith, waits-awaits k id is)
