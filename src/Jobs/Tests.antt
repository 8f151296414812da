-- ===== src/Jobs/Tests.antt =====
-- The properties of the campaigns at concrete inputs: one campaign with one variant, two recipients,
-- and a mail server that takes everything.
use sendry.Base.{
  ℕ, ◌≡◌, refl, sym, ap, true, false, Option, none, some, List, [], ◌∷◌, Text, codes, text_eq, inr,
  any, arith, find, select, has_key, count, lookup,
}
use sendry.Jobs.{
  JobStatus, running, paused, pending, SendJob, SendJobItem, Recipient, active, Campaign,
  CampaignVariant, Store, is_running, is_scheduled, is_pending,
}
use sendry.Jobs.Reading.{get_by_id, pending_in, of_job}
use sendry.Jobs.Mails.{Outside, item_variables, email_of, name_of}
use sendry.Jobs.Requests.{SendForm, campaign_send, assign_items}
use sendry.Jobs.Creating.{AllDifferent}
use sendry.Jobs.Events.{ticks, sends, pauses, run, store_of, Event}
use sendry.Jobs.Once.{HandedOnce}
use sendry.Jobs.Runs.{run-HandedOnce}
use sendry.Jobs.Kept.{Sound}
use sendry.Jobs.Idle.{Idle, run_ticks, run_ticks-Idle}
use sendry.Jobs.Progress.{Over}
use sendry.Jobs.Ending.{run_ticks-Over}
use sendry.Jobs.Assigning.{InTurn, assign_items-InTurn}
use sendry.Jobs.Variables.{lookup-item_variables}

abbrev services : Outside
services = record {
  Value = Text;
  str = λ s. s;
  decode_any = λ s. none;
  decode_flat = λ s. (true, (codes "email", codes "other") ∷ []);
  render_html = λ name source vars. inr source;
  render_text = λ name source vars. inr source;
  has_client = λ server. true;
  send = λ calls server request. inr (codes "m");
  get_status = λ calls server id. none;
}

abbrev reader : Text → Recipient
reader id = record {
  id = id;
  list_id = codes "l";
  email = codes "a@b";
  name = [];
  variables = codes "{}";
  status = active;
  created_at = 0;
}

abbrev variant : Text → CampaignVariant
variant id = record {
  id = id;
  campaign_id = codes "c";
  template_id = codes "t";
  subject_override = [];
  created_at = 0;
}

abbrev campaign : Campaign
campaign = record {
  id = codes "c";
  from_email = codes "x@y";
  from_name = [];
  reply_to = [];
  variables = [];
}

abbrev empty_store : Store
empty_store = record {
  jobs = [];
  items = [];
  recipients = reader (codes "1") ∷ reader (codes "2") ∷ [];
  campaigns = campaign ∷ [];
  variants = variant (codes "v") ∷ [];
  templates = record { id = codes "t"; subject = codes "hi"; html = []; text = [] } ∷ [];
  globals = [];
  handed = [];
}

abbrev form : Option ℕ → SendForm
form at = record {
  recipient_list_id = codes "l";
  servers = codes "s" ∷ [];
  strategy = [];
  dry_run = false;
  dry_run_limit = 0;
  scheduled_at = at;
}

abbrev ids : ℕ → Text
ids n = n ∷ []

ids_different : AllDifferent ids
unfolding text_eq
ids_different n m d = ground arith

abbrev events : List Event
events = sends (codes "c") (form none) (codes "j") ids 0 ∷ pauses (codes "j") 1 ∷ ticks 2 ∷ []

run-HandedOnce_example :
    let st' = run services 10 events empty_store in HandedOnce st'.items st'.handed
unfolding has_key any
run-HandedOnce_example =
    run-HandedOnce services 10 events empty_store
      ((ids_different, λ n. refl, λ n. refl), (tt, (tt, tt)))
      (record { distinct_items = tt; settled = tt; distinct = tt })

abbrev job : JobStatus → SendJob
job s = record {
  id = codes "j";
  campaign_id = codes "c";
  recipient_list_id = codes "l";
  status = s;
  scheduled_at = none;
  started_at = none;
  completed_at = none;
  servers = codes "s" ∷ [];
  strategy = codes "round-robin";
  stats = none;
  dry_run = false;
  dry_run_limit = 0;
  created_at = 0;
  updated_at = 0;
}

abbrev item : SendJobItem
item = record {
  id = codes "i";
  job_id = codes "j";
  recipient_id = codes "1";
  variant_id = codes "v";
  server_name = codes "s";
  status = pending;
  sendry_msg_id = none;
  error = none;
  queued_at = none;
  sent_at = none;
  created_at = 0;
}

abbrev store_with : JobStatus → Store
store_with s = record empty_store { jobs = job s ∷ []; items = item ∷ [] }

store-Sound : (s : JobStatus) → Sound (store_with s)
unfolding has_key any
store-Sound s = ((refl, tt), (refl, tt))

paused-Idle : Idle (codes "j") (store_with paused)
unfolding get_by_id find text_eq is_running is_scheduled
paused-Idle row e =
    let same : job paused ≡ row = cc e in
    (
      ap (λ (j : SendJob). is_running j.status) (sym same),
      ap (λ (j : SendJob). is_scheduled j.status) (sym same),
    )

run_ticks-Idle_example :
    (get_by_id (codes "j") (run_ticks services 10 (1 ∷ 2 ∷ []) (store_with paused))
      ≡ get_by_id (codes "j") (store_with paused))
    × (select
          (pending_in (codes "j"))
          (run_ticks services 10 (1 ∷ 2 ∷ []) (store_with paused)).items
        ≡ select (pending_in (codes "j")) (store_with paused).items)
run_ticks-Idle_example =
    run_ticks-Idle services 10 (1 ∷ 2 ∷ []) (codes "j") (store_with paused) (store-Sound paused)
      paused-Idle

run_ticks-Over_example : Over (codes "j") (run_ticks services 1 (1 ∷ 2 ∷ []) (store_with running))
unfolding get_by_id find text_eq is_running any of_job count pending_in is_pending
run_ticks-Over_example =
    run_ticks-Over services 1 (1 ∷ 2 ∷ []) (codes "j") 1 (store_with running) (omega arith)
      (omega arith) (store-Sound running) ((campaign, refl), tt)
      (record { row = job running; found = refl; runs = refl; has_items = refl; few = omega arith })

abbrev scheduled_store : Store
scheduled_store =
    store_of empty_store (campaign_send (codes "c") (form (some 5)) (codes "j") ids 0 empty_store)

abbrev readers : List Recipient
readers = reader (codes "1") ∷ reader (codes "2") ∷ reader (codes "3") ∷ []

abbrev variants : List CampaignVariant
variants = variant (codes "v") ∷ variant (codes "w") ∷ []

assign_items-InTurn_example :
    (is : List SendJobItem) × (assign_items (codes "j") variants (codes "s" ∷ []) 0 0 readers
      ≡ some is)
    × InTurn (codes "j") variants (codes "s" ∷ []) 0 readers is
assign_items-InTurn_example =
    assign_items-InTurn (codes "j") variants (codes "s" ∷ []) (omega arith) (omega arith) readers

lookup-item_variables_example :
    lookup (codes "email") (item_variables services [] [] (some (reader (codes "1"))))
    ≡ some (codes "a@b")
unfolding text_eq name_of email_of
lookup-item_variables_example =
    lookup-item_variables services (codes "email") [] [] (some (reader (codes "1")))
