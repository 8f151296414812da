-- ===== src/Jobs.antt =====
-- The campaigns of the web interface: internal/web/models/job.go, the tables of internal/web/db/db.go
-- that the jobs need, and their rows as lists. A column that JSON is written to holds the value
-- itself; times are numbers.
pub mod Repository
pub mod Reading
pub mod Mails
pub mod Worker
pub mod Requests
mod Changes
mod Statements
mod Handling
mod Ticks
mod Tracking
mod Kept
mod Idle
mod Later
mod Batches
mod Progress
mod Finishing
mod Ending
mod Creating
mod Events
mod Campaigns
mod Once
mod Runs
mod Variables
mod Assigning
mod Tests
use sendry.Base.{ℕ, Bool, true, false, Option, List, Text, Dict}

pub data JobStatus : Type 0 where
  draft scheduled running paused completed failed cancelled : JobStatus

pub data ItemStatus : Type 0 where
  pending queued sent failed : ItemStatus

unfoldable pub is_running : JobStatus → Bool
is_running running = true
is_running _ = false

unfoldable pub is_scheduled : JobStatus → Bool
is_scheduled scheduled = true
is_scheduled _ = false

unfoldable pub is_pending : ItemStatus → Bool
is_pending pending = true
is_pending _ = false

unfoldable pub is_queued : ItemStatus → Bool
is_queued queued = true
is_queued _ = false

unfoldable pub is_sent : ItemStatus → Bool
is_sent sent = true
is_sent _ = false

unfoldable pub is_failed : ItemStatus → Bool
is_failed failed = true
is_failed _ = false

pub record JobStats : Type 0 where
  pub total : ℕ
  pub pending : ℕ
  pub queued : ℕ
  pub sent : ℕ
  pub failed : ℕ

pub record SendJob : Type 0 where
  pub id : Text
  pub campaign_id : Text
  pub recipient_list_id : Text
  pub status : JobStatus
  pub scheduled_at : Option ℕ
  pub started_at : Option ℕ
  pub completed_at : Option ℕ
  pub servers : List Text
  pub strategy : Text
  pub stats : Option JobStats
  pub dry_run : Bool
  pub dry_run_limit : ℕ
  pub created_at : ℕ
  pub updated_at : ℕ

-- `none` is the NULL of a column that no statement has set.
pub record SendJobItem : Type 0 where
  pub id : Text
  pub job_id : Text
  pub recipient_id : Text
  pub variant_id : Text
  pub server_name : Text
  pub status : ItemStatus
  pub sendry_msg_id : Option Text
  pub error : Option Text
  pub queued_at : Option ℕ
  pub sent_at : Option ℕ
  pub created_at : ℕ

pub data RecipientStatus : Type 0 where
  active unsubscribed bounced : RecipientStatus

unfoldable pub is_active : RecipientStatus → Bool
is_active active = true
is_active _ = false

pub record Recipient : Type 0 where
  pub id : Text
  pub list_id : Text
  pub email : Text
  pub name : Text
  pub variables : Text
  pub status : RecipientStatus
  pub created_at : ℕ

pub record Campaign : Type 0 where
  pub id : Text
  pub from_email : Text
  pub from_name : Text
  pub reply_to : Text
  pub variables : Text

pub record CampaignVariant : Type 0 where
  pub id : Text
  pub campaign_id : Text
  pub template_id : Text
  pub subject_override : Text
  pub created_at : ℕ

pub record Template : Type 0 where
  pub id : Text
  pub subject : Text
  pub html : Text
  pub text : Text

-- A call of Client.Send: for which item, to which server and with what.
pub record SendRequest : Type 0 where
  pub from : Text
  pub to : List Text
  pub subject : Text
  pub body : Text
  pub html : Text
  pub headers : Dict Text

pub record Handed : Type 0 where
  pub item_id : Text
  pub server : Text
  pub request : SendRequest

-- The tables, and the calls of Client.Send so far, the latest first.
pub record Store : Type 0 where
  pub jobs : List SendJob
  pub items : List SendJobItem
  pub recipients : List Recipient
  pub campaigns : List Campaign
  pub variants : List CampaignVariant
  pub templates : List Template
  pub globals : Dict Text
  pub handed : List Handed
