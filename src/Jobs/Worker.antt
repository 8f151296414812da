-- ===== src/Jobs/Worker.antt =====
-- internal/web/worker/worker.go: a tick of the worker. The items of a batch are handled one after the
-- other, where the program starts a goroutine for each; Stop, which ends a tick early, is left out.
-- One tick reads the clock once.
use sendry.Base.{
  ℕ, Bool, ◌&&◌, Option, none, some, List, [], ◌∷◌, ◌*◌, inl, inr, Text, codes, is_empty, ltb, ◌==◌,
  if◌then◌else◌, Dict, any, text_eq,
}
use sendry.Jobs.{
  ItemStatus, queued, sent, failed, running, completed, SendJob, SendJobItem, Campaign,
  CampaignVariant, Template, SendRequest, Store,
}
use sendry.Jobs.Repository.{update_status, update_stats, update_item_status}
use sendry.Jobs.Reading.{
  get_job_stats, get_running_jobs, get_scheduled_jobs_due, get_pending_items, get_queued_items,
  get_campaign, get_variants,
}
use sendry.Jobs.Mails.{Outside, variant_map, template_map, prepare_item}

abbrev pub one_of : Text → List Text → Bool
one_of s ts = any (text_eq s) ts

unfoldable pub map_sendry_status : Text → Option ItemStatus
map_sendry_status s =
    if one_of s (codes "queued" ∷ codes "pending" ∷ codes "processing" ∷ [])
    then some queued
    else if one_of s (codes "sent" ∷ codes "delivered" ∷ [])
    then some sent
    else if one_of s (codes "failed" ∷ codes "rejected" ∷ codes "bounced" ∷ [])
    then some failed
    else none

module _ (sv : Outside) where
  open sv use {decode_flat, has_client, send, get_status}

  unfoldable pub update_item_failed : Text → Text → ℕ → Store → Store
  update_item_failed id err now st = update_item_status id failed [] err now st

  unfoldable pub call_send : ℕ → SendJobItem → SendRequest → Store → Store
  call_send now i req st =
      let st' = record st {
        handed = record { item_id = i.id; server = i.server_name; request = req } ∷ st.handed;
      } in
      elim (send st.handed i.server_name req) [
        | inl err ↦ update_item_failed i.id err now st'
        | inr msg ↦ update_item_status i.id queued msg [] now st'
      ]

  unfoldable pub process_item :
      ℕ
      → Campaign
      → Dict CampaignVariant
      → Dict (Option Template)
      → Dict Text
      → SendJobItem
      → Store
      → Store
  process_item now c vs ts campaign_vars i st = elim (prepare_item sv i c vs ts campaign_vars st) [
    | inl err ↦ update_item_failed i.id err now st
    | inr req ↦ call_send now i req st
  ]

  unfoldable pub process_items :
      ℕ
      → Campaign
      → Dict CampaignVariant
      → Dict (Option Template)
      → Dict Text
      → List SendJobItem
      → Store
      → Store
  process_items now c vs ts campaign_vars [] st = st
  process_items now c vs ts campaign_vars (i ∷ is) st =
      process_items now c vs ts campaign_vars is (process_item now c vs ts campaign_vars i st)

  -- A job whose items are all handed over is complete; it has failed if some did and none was sent.
  unfoldable pub finish_job : ℕ → Text → Store → Store
  finish_job now id st = elim (get_job_stats id st) [
    | none ↦ st
    | some stats ↦
        if stats.pending == 0
        then update_status id
            (if ltb 0 stats.failed && (stats.sent == 0) then failed else completed) now st
        else st
  ]

  unfoldable pub save_stats : ℕ → Text → Store → Store
  save_stats now id st = elim (get_job_stats id st) [
    | none ↦ st
    | some stats ↦ update_stats id stats now st
  ]

  unfoldable pub process_batch : ℕ → SendJob → List SendJobItem → Store → Store
  process_batch now job items st = elim (get_campaign job.campaign_id st) [
    | none ↦ st
    | some c ↦
        let variants = get_variants job.campaign_id st in
        let vars = if is_empty c.variables then [] else (decode_flat c.variables).1 in
        save_stats now job.id (
          process_items now c (variant_map variants []) (template_map st variants []) vars items st)
  ]

  unfoldable pub process_job : ℕ → ℕ → SendJob → Store → Store
  process_job batch_size now job st =
      let items = get_pending_items job.id batch_size st in
      if is_empty items then finish_job now job.id st else process_batch now job items st

  unfoldable pub process_each : ℕ → ℕ → List SendJob → Store → Store
  process_each batch_size now [] st = st
  process_each batch_size now (j ∷ js) st =
      process_each batch_size now js (process_job batch_size now j st)

  -- What a status of the mail server makes of an item that is queued.
  unfoldable pub track_item : ℕ → SendJobItem → Text → Store → Store
  track_item now i msg st =
      if has_client i.server_name
      then elim (get_status st.handed i.server_name msg) [
        | none ↦ st
        | some r ↦ elim (map_sendry_status r.status) [
          | none ↦ st
          | some queued ↦ st
          | some failed ↦ update_item_status i.id failed msg r.last_error now st
          | some s ↦ update_item_status i.id s msg [] now st
        ]
      ]
      else st

  unfoldable pub track_items : ℕ → List SendJobItem → Store → Store
  track_items now [] st = st
  track_items now (i ∷ is) st = elim i.sendry_msg_id [
    | none ↦ track_items now is st
    | some msg ↦ track_items now is (track_item now i msg st)
  ]

  unfoldable pub track_queued_items : ℕ → ℕ → Store → Store
  track_queued_items batch_size now st = track_items now (get_queued_items (batch_size * 2) st) st

  unfoldable pub start_jobs : ℕ → List SendJob → Store → Store
  start_jobs now [] st = st
  start_jobs now (j ∷ js) st = start_jobs now js (update_status j.id running now st)

  unfoldable pub start_scheduled_jobs : ℕ → Store → Store
  start_scheduled_jobs now st = start_jobs now (get_scheduled_jobs_due now st) st

  -- A tick of the worker.
  unfoldable pub process_jobs : ℕ → ℕ → Store → Store
  process_jobs batch_size now st =
      let tracked = track_queued_items batch_size now (start_scheduled_jobs now st) in
      process_each batch_size now (get_running_jobs tracked) tracked
