-- ===== src/Jobs/Tracking.antt =====
-- The following of the queued items by internal/web/worker/worker.go as a sequence of small changes.
use sendry.Base.{
  ℕ, ◌≡◌, refl, true, false, Option, none, some, List, [], ◌∷◌, Text, ◌⊎◌, inl, inr, text_eq,
  text_eq_iff, All, All-map, All-both, All-select_cons, any, arith, select, DistinctKeys,
  All-order_by, All-take, Option-cases, Bool-cases, ◌*◌, has_key-others, has_key-select,
}
use sendry.Jobs.{
  SendJob, SendJobItem, Store, ItemStatus, pending, queued, sent, failed, is_pending, is_queued,
}
use sendry.Jobs.Reading.{get_queued_items, is_tracked}
use sendry.Jobs.Mails.{Outside, StatusResponse}
use sendry.Jobs.Worker.{track_item, track_items, track_queued_items, map_sendry_status}
use sendry.Jobs.Statements.{no_row}
use sendry.Jobs.Changes.{item_key, awaits, has_row}
use sendry.Jobs.Handling.{Step, Steps, done, next, tracked}
use sendry.Jobs.Ticks.{Step-settled}

-- A row that is tracked does not wait.
selected_settled :
    (is : List SendJobItem)
    → DistinctKeys item_key is
    → All (λ (r : SendJobItem). has_row awaits r.id is ≡ false) (select is_tracked is)
unfolding has_row any select is_tracked is_queued is_pending
selected_settled [] d = tt
selected_settled (i ∷ is) d =
    All-select_cons Settled is_tracked i is (λ w. ground (arith, no_row awaits i.id is d.0))
      (All-map (λ (r : SendJobItem). (has_row awaits r.id is ≡ false) × (text_eq r.id i.id ≡ false))
        Settled (select is_tracked is)
        (λ r h. ground (arith, text_eq_iff r.id i.id, text_eq_iff i.id r.id))
        (All-both _ _ (select is_tracked is) (selected_settled is d.1) (
          has_key-others item_key i.id (select is_tracked is)
            (has_key-select item_key i.id is_tracked is d.0))))
  where
    Settled : SendJobItem → Type 0
    Settled r = has_row awaits r.id (i ∷ is) ≡ false

get_queued_items-settled :
    (limit : ℕ) (st : Store)
    → DistinctKeys item_key st.items
    → All (λ (r : SendJobItem). has_row awaits r.id st.items ≡ false) (get_queued_items limit st)
unfolding get_queued_items
get_queued_items-settled limit st d =
    All-take _ limit _ (All-order_by _ _ (select is_tracked st.items) (selected_settled st.items d))

map_sendry_status-settled :
    (s : Text) (t : ItemStatus) → map_sendry_status s ≡ some t → is_pending t ≡ false
unfolding map_sendry_status is_pending
map_sendry_status-settled s t h = ground arith

module _ (sv : Outside) (now : ℕ) where
  -- What the answer of the mail server makes of an item that does not wait.
  track_item-Step :
      (js : List SendJob) (i : SendJobItem) (msg : Text) (st : Store)
      → has_row awaits i.id st.items ≡ false
      → (track_item sv now i msg st ≡ st) ⊎ Step js now st (track_item sv now i msg st)
  unfolding track_item is_pending
  track_item-Step js i msg st w = elim (Bool-cases (sv.has_client i.server_name)) [
    | inr lacks ↦ inl (rw (track_item, lacks) refl)
    | inl has ↦ answered has (sv.get_status st.handed i.server_name msg) refl
  ]
    where
      mapped :
          sv.has_client i.server_name ≡ true
          → (r : StatusResponse) → sv.get_status st.handed i.server_name msg ≡ some r
          → (o : Option ItemStatus) → map_sendry_status r.status ≡ o
          → (track_item sv now i msg st ≡ st) ⊎ Step js now st (track_item sv now i msg st)
      mapped has r e none m = inl (rw (track_item, has, e, m) refl)
      mapped has r e (some queued) m = inl (rw (track_item, has, e, m) refl)
      mapped has r e (some failed) m =
          inr (tracked i.id failed msg r.last_error refl w (rw (track_item, has, e, m) refl))
      mapped has r e (some sent) m =
          inr (tracked i.id sent msg [] refl w (rw (track_item, has, e, m) refl))
      mapped has r e (some pending) m = absurd (cc (map_sendry_status-settled r.status pending m))

      answered :
          sv.has_client i.server_name ≡ true
          → (o : Option StatusResponse) → sv.get_status st.handed i.server_name msg ≡ o
          → (track_item sv now i msg st ≡ st) ⊎ Step js now st (track_item sv now i msg st)
      answered has none e = inl (rw (track_item, has, e) refl)
      answered has (some r) e = mapped has r e (map_sendry_status r.status) refl

  track_item-Steps :
      (js : List SendJob) (i : SendJobItem) (msg : Text) (is : List SendJobItem) (s st : Store)
      → has_row awaits i.id st.items ≡ false
      → All (λ (r : SendJobItem). has_row awaits r.id st.items ≡ false) is
      → Steps js now s st
      → let st' = track_item sv now i msg st in
        All (λ (r : SendJobItem). has_row awaits r.id st'.items ≡ false) is × Steps js now s st'
  track_item-Steps js i msg is s st w a r = elim (track_item-Step js i msg st w) [
    | inl e ↦ rw e (a, r)
    | inr t ↦ (All-map _ _ is (Step-settled js now st _ t) a, next r t)
  ]

  track_items-Steps :
      (js : List SendJob) (is : List SendJobItem) (s st : Store)
      → All (λ (i : SendJobItem). has_row awaits i.id st.items ≡ false) is
      → Steps js now s st
      → Steps js now s (track_items sv now is st)
  unfolding track_items
  track_items-Steps js [] s st a r = r
  track_items-Steps js (i ∷ is) s st a r = elim (Option-cases i.sendry_msg_id) [
    | inl e ↦ rw (track_items, e) (track_items-Steps js is s st a.1 r)
    | inr (msg, e) ↦
        let t = track_item-Steps js i msg is s st a.0 a.1 r in
        rw (track_items, e) (track_items-Steps js is s (track_item sv now i msg st) t.0 t.1)
  ]

  pub track_queued_items-Steps :
      (batch_size : ℕ) (js : List SendJob) (st : Store)
      → DistinctKeys item_key st.items
      → Steps js now st (track_queued_items sv batch_size now st)
  unfolding track_queued_items
  track_queued_items-Steps batch_size js st d =
      track_items-Steps js _ st st (get_queued_items-settled (batch_size * 2) st d) done
