-- ===== src/Api.antt =====
-- The sending API of the web interface: internal/web/models/apikey.go, internal/web/models/send.go and
-- the types of internal/web/router/router.go. Times are numbers, and a column that JSON is written to
-- holds the value itself.
pub mod Keys
pub mod Limits
pub mod Auth
pub mod Content
pub mod Selection
pub mod Router
pub mod Handlers
mod Windows
mod Failover
mod Turns
mod Senders
mod Serving
mod Records
mod Issuing
mod Tests
use sendry.Base.{ℕ, Bool, Option, List, Text, Dict}

-- Without its prefix, permissions, creator and time of creation, which are only shown.
pub record ApiKey : Type 0 where
  pub id : Text
  pub name : Text
  pub key_hash : Text
  pub allowed_domains : List Text
  pub rate_limit_minute : ℕ
  pub rate_limit_hour : ℕ
  pub last_used_at : Option ℕ
  pub expires_at : Option ℕ
  pub active : Bool

-- `template_id` and `template_name` are empty where the mail is written out.
pub record ApiSendRequest {ℓ} (Value : Type ℓ) : Type ℓ where
  pub from : Text
  pub to : List Text
  pub cc : List Text
  pub bcc : List Text
  pub subject : Text
  pub body : Text
  pub html : Text
  pub headers : Dict Text
  pub template_id : Text
  pub template_name : Text
  pub values : Dict Value
  pub prefer_server : Text

-- sendry.SendRequest with all its fields.
pub record MailRequest : Type 0 where
  pub from : Text
  pub to : List Text
  pub cc : List Text
  pub bcc : List Text
  pub subject : Text
  pub body : Text
  pub html : Text
  pub headers : Dict Text

pub data DeploymentStatus : Type 0 where
  deployed other_status : DeploymentStatus

pub record Deployment : Type 0 where
  pub server_name : Text
  pub status : DeploymentStatus

pub record SenderDomain : Type 0 where
  pub domain : Text
  pub deployments : List Deployment

pub record MailTemplate : Type 0 where
  pub id : Text
  pub name : Text
  pub subject : Text
  pub html : Text
  pub text : Text

pub data SendStatus : Type 0 where
  send_pending send_sent send_failed : SendStatus

-- A row of the table `sends`, without the client's address and the time of creation, which are only
-- shown.
pub record SendRow : Type 0 where
  pub id : Text
  pub api_key_id : Text
  pub from_address : Text
  pub to_addresses : List Text
  pub cc_addresses : List Text
  pub bcc_addresses : List Text
  pub subject : Text
  pub template_id : Text
  pub sender_domain : Text
  pub server_name : Text
  pub server_msg_id : Text
  pub status : SendStatus
  pub error_message : Text
  pub sent_at : Option ℕ

pub record ServerInfo : Type 0 where
  pub server : Text
  pub weight : ℕ

-- A call of Client.Send.
pub record Call : Type 0 where
  pub called : Text
  pub mail : MailRequest

-- What the requests change: the rows of the keys and of the mails, the counters of the round robin,
-- and the calls of Client.Send so far, the latest first.
pub record ApiState : Type 0 where
  pub keys : List ApiKey
  pub sends : List SendRow
  pub rr_counters : Dict ℕ
  pub calls : List Call
