-- ===== src/Jobs/Handling.antt =====
-- The handling of a batch by internal/web/worker/worker.go as a sequence of small changes of the
-- store, and what each change needs.
use sendry.Base.{
  ℕ, ◌≡◌, refl, ap, true, false, Option, List, [], ◌∷◌, Text, ◌⊎◌, inl, inr, text_eq, text_eq_iff,
  All, any, arith, has_key, DistinctKeys, Dict,
}
use sendry.Jobs.{
  SendJob, SendJobItem, Store, JobStatus, completed, ItemStatus, queued, failed, JobStats, Campaign,
  CampaignVariant, Template, SendRequest, is_pending,
}
use sendry.Jobs.Repository.{update_item_status, update_status, update_stats}
use sendry.Jobs.Reading.{pending_in}
use sendry.Jobs.Mails.{Outside, prepare_item}
use sendry.Jobs.Worker.{update_item_failed, call_send, process_item, process_items}
use sendry.Jobs.Statements.{waits-update_item_status}
use sendry.Jobs.Changes.{job_key, item_key, awaits, has_row}

-- The store after a call of Client.Send.
abbrev pub record_call : SendJobItem → SendRequest → Store → Store
record_call i req st = record st {
  handed = record { item_id = i.id; server = i.server_name; request = req } ∷ st.handed;
}

-- The row with the id is a pending item of the job.
abbrev pub Waits : Text → Store → SendJobItem → Type 0
Waits k st i = has_row (pending_in k) i.id st.items ≡ true

-- The items of a batch are distinct rows that wait.
abbrev pub Batch : Text → Store → List SendJobItem → Type 0
Batch k st is = All (λ (r : SendJobItem). Waits k st r) is × DistinctKeys item_key is

-- How the handling of an item may end.
pub data Handling (now : ℕ) (i : SendJobItem) (st : Store) (st' : Store) : Type 0 where
  unsent : (err : Text) → st' ≡ update_item_status i.id failed [] err now st → Handling now i st st'
  called :
      (req : SendRequest) (s : ItemStatus) (msg err : Text)
      → is_pending s ≡ false
      → st' ≡ update_item_status i.id s msg err now (record_call i req st)
      → Handling now i st st'

-- A change that the worker makes while it handles the jobs `js`.
pub data Step (js : List SendJob) (now : ℕ) (st : Store) (st' : Store) : Type 0 where
  tracked :
      (id : Text) (s : ItemStatus) (msg err : Text)
      → is_pending s ≡ false
      → has_row awaits id st.items ≡ false
      → st' ≡ update_item_status id s msg err now st
      → Step js now st st'
  dropped :
      (k : Text) (i : SendJobItem) (err : Text)
      → has_key job_key k js ≡ true
      → Waits k st i
      → st' ≡ update_item_status i.id failed [] err now st
      → Step js now st st'
  handed_over :
      (k : Text) (i : SendJobItem) (req : SendRequest) (s : ItemStatus) (msg err : Text)
      → has_key job_key k js ≡ true
      → Waits k st i
      → is_pending s ≡ false
      → st' ≡ update_item_status i.id s msg err now (record_call i req st)
      → Step js now st st'
  saved :
      (k : Text) (stats : JobStats)
      → has_key job_key k js ≡ true
      → st' ≡ update_stats k stats now st
      → Step js now st st'
  finished :
      (k : Text) (s : JobStatus)
      → has_key job_key k js ≡ true
      → (s ≡ completed) ⊎ (s ≡ failed)
      → st' ≡ update_status k s now st
      → Step js now st st'

pub data Steps (js : List SendJob) (now : ℕ) (st : Store) : Store → Type 0 where
  done : Steps js now st st
  next : {t u : Store} → Steps js now st t → Step js now t u → Steps js now st u

module _ (sv : Outside) (now : ℕ) where
  call_send-Handling :
      (i : SendJobItem) (req : SendRequest) (st : Store)
      → Handling now i st (call_send sv now i req st)
  unfolding is_pending call_send update_item_failed
  call_send-Handling i req st = go (sv.send st.handed i.server_name req) refl
    where
      go :
          (r : Text ⊎ Text)
          → sv.send st.handed i.server_name req ≡ r
          → Handling now i st (call_send sv now i req st)
      go (inl err) e = called req failed [] err refl (rw (call_send, e, update_item_failed) refl)
      go (inr msg) e = called req queued msg [] refl (rw (call_send, e) refl)

  module _ (c : Campaign) (vs : Dict CampaignVariant) (ts : Dict (Option Template))
      (vars : Dict Text) where
    pub process_item-Handling :
        (i : SendJobItem) (st : Store) → Handling now i st (process_item sv now c vs ts vars i st)
    unfolding process_item update_item_failed
    process_item-Handling i st = go (prepare_item sv i c vs ts vars st) refl
      where
        go :
            (r : Text ⊎ SendRequest)
            → prepare_item sv i c vs ts vars st ≡ r
            → Handling now i st (process_item sv now c vs ts vars i st)
        go (inl err) e = unsent err (rw (process_item, e, update_item_failed) refl)
        go (inr req) e = rw (process_item, e) (call_send-Handling i req st)

    Handling-Step :
        (js : List SendJob) (k : Text) (i : SendJobItem) (st st' : Store)
        → has_key job_key k js ≡ true
        → Waits k st i
        → Handling now i st st'
        → Step js now st st'
    Handling-Step js k i st st' m w (unsent err e) = dropped k i err m w e
    Handling-Step js k i st st' m w (called req s msg err p e) =
        handed_over k i req s msg err m w p e

    -- Another item waits as before.
    Handling-Waits :
        (k : Text) (i r : SendJobItem) (st st' : Store)
        → text_eq r.id i.id ≡ false
        → Waits k st r
        → Handling now i st st'
        → Waits k st' r
    unfolding is_pending
    Handling-Waits k i r st st' d w (unsent err e) = ground (
      arith,
      ap (λ (t : Store). has_row (pending_in k) r.id t.items) e,
      waits-update_item_status i.id failed [] err now st refl k r.id,
    )
    Handling-Waits k i r st st' d w (called req s msg err p e) = ground (
      arith,
      ap (λ (t : Store). has_row (pending_in k) r.id t.items) e,
      waits-update_item_status i.id s msg err now (record_call i req st) p k r.id,
    )

    pub Batch-next :
        (k : Text) (i : SendJobItem) (is : List SendJobItem) (st st' : Store)
        → has_key item_key i.id is ≡ false
        → Handling now i st st'
        → Batch k st is
        → Batch k st' is
    unfolding has_key any
    Batch-next k i [] st st' d h b = b
    Batch-next k i (r ∷ rs) st st' d h b =
        let later : Batch k st' rs = Batch-next k i rs st st' (ground arith) h (b.0.1, b.1.1) in
        let now_waits : Waits k st' r =
          Handling-Waits k i r st st' (ground (arith, text_eq_iff i.id r.id, text_eq_iff r.id i.id))
            b.0.0 h in
        ((now_waits, later.0), b.1)

    pub process_items-Steps :
        (js : List SendJob) (k : Text) (is : List SendJobItem) (s st : Store)
        → has_key job_key k js ≡ true
        → Batch k st is
        → Steps js now s st
        → Steps js now s (process_items sv now c vs ts vars is st)
    unfolding process_items
    process_items-Steps js k [] s st m b r = r
    process_items-Steps js k (i ∷ is) s st m b r =
        let st' = process_item sv now c vs ts vars i st in
        let h : Handling now i st st' = process_item-Handling i st in
        process_items-Steps js k is s st' m (Batch-next k i is st st' b.1.0 h (b.0.1, b.1.1))
          (next r (Handling-Step js k i st st' m b.0.0 h))
