-- ===== src/Queue/Message.antt =====
-- internal/queue/message.go. Times are numbers of nanoseconds. `other` is a status that is none of
-- the five constants, the empty string among them; `retry_count` is an `int` that never falls
-- below 0.
use sendry.Base.{
  ℕ, Bool, true, false, ◌≡◌, refl, ◌↔◌, ◌⊎◌, inl, inr, Option, none, some, arith, List, Text,
  text_eq, text_eq_iff,
}

pub data MessageStatus : Type 0 where
  status_pending status_sending status_delivered status_failed status_deferred : MessageStatus
  other : Text → MessageStatus

pub record Message : Type 0 where
  pub id : Text
  pub from : Text
  pub to : List Text
  pub raw : Text
  pub status : MessageStatus
  pub created_at : ℕ
  pub updated_at : ℕ
  pub next_retry_at : ℕ
  pub retry_count : ℕ
  pub last_error : Text
  pub client_ip : Text
  pub auth_user : Text

-- What stands behind a key of the bucket `messages`: the JSON of a message, or bytes that
-- `json.Unmarshal` refuses.
pub data Stored : Type 0 where
  json : Message → Stored
  corrupted : Text → Stored

unfoldable pub status_eq : MessageStatus → MessageStatus → Bool
status_eq status_pending status_pending = true
status_eq status_sending status_sending = true
status_eq status_delivered status_delivered = true
status_eq status_failed status_failed = true
status_eq status_deferred status_deferred = true
status_eq (other s) (other t) = text_eq s t
status_eq _ _ = false

pub Stored-cases :
    (o : Option Stored)
    → (o ≡ none) ⊎ (((b : Text) × (o ≡ some (corrupted b))) ⊎ ((m : Message) × (o ≡ some (json m))))
Stored-cases none = inl refl
Stored-cases (some (corrupted b)) = inr (inl (b, refl))
Stored-cases (some (json m)) = inr (inr (m, refl))

pub status_eq_iff : (s t : MessageStatus) → (status_eq s t ≡ true) ↔ (s ≡ t)
unfolding status_eq
status_eq_iff (other s) (other t) = ground (arith, text_eq_iff s t)
status_eq_iff status_pending t = ground arith
status_eq_iff status_sending t = ground arith
status_eq_iff status_delivered t = ground arith
status_eq_iff status_failed t = ground arith
status_eq_iff status_deferred t = ground arith
status_eq_iff (other s) t = ground arith

-- The errors of a sender: `DeliveryError` of internal/smtp, `SimulatedError` of internal/sandbox,
-- each with its flag `Temporary` and its message, and any other.
pub data SendError : Type 0 where
  delivery_error : Bool → Text → SendError
  simulated_error : Bool → Text → SendError
  other_error : Text → SendError

-- err.Error()
abbrev pub error_text : SendError → Text
error_text (delivery_error t s) = s
error_text (simulated_error t s) = s
error_text (other_error s) = s
