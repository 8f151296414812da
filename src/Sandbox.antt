-- ===== src/Sandbox.antt =====
-- internal/sandbox/sender.go: the sender that stands before the real one and captures, redirects or
-- copies the mail of a domain by its mode. The real sender, the bucket of captured mail, the random
-- numbers and the clock are parameters; what is handed to the real sender is kept as a list.
pub mod Routes
pub mod Bounced
mod Tests
use sendry.Base.{
  ℕ, Bool, true, false, not, ◌&&◌, ◌||◌, ◌⊎◌, inl, inr, Option, none, some, List, [], ◌∷◌, ◌++◌,
  Text, codes, is_empty, text_eq, to_lower, has_prefix, trim_space, split_all, drop, ◌==◌,
  if◌then◌else◌,
}
use sendry.Email.{extract_domain}
use sendry.HeaderRules.{RulesConfig, process}
use sendry.Queue.Message.{Message, SendError, simulated_error, other_error, other}

-- A message of the sandbox: `Message` of internal/sandbox/storage.go.
pub record Captured : Type 0 where
  pub id : Text
  pub from : Text
  pub to : List Text
  pub original_to : List Text
  pub subject : Text
  pub bytes : Text
  pub domain : Text
  pub mode : Text
  pub captured_at : ℕ
  pub client_ip : Text
  pub simulated_err : Text

-- The settings of the domains.
pub record DomainModes : Type 0 where
  pub get_domain_mode : Text → Text
  pub get_redirect_addresses : Text → List Text
  pub get_bcc_addresses : Text → List Text

-- The parts of a Sender; a nil pointer is `none`. `save` gives the text of an error or the bucket
-- with the message in it.
pub record Sender : Type 0 where
  pub real_send : Message → Option SendError
  pub domain_provider : Option DomainModes
  pub header_processor : Option (Option RulesConfig)
  pub parse_address : Text → Option Text
  pub save : Captured → List Captured → Text ⊎ List Captured
  pub simulate_errors : Bool

-- What changes: the captured messages, and the messages handed to the real sender, the last one at
-- the end.
pub record Outbox : Type 0 where
  pub captured : List Captured
  pub sent : List Message

-- The chances of one call: whether rand.Float64() is below the probability, and rand.Intn(4).
abbrev pub Chance : Type 0
Chance = Bool × ℕ

-- The loop of extractSubject, which ends at the first empty line.
unfoldable pub subject_of : List Text → Text
subject_of [] = []
subject_of (line ∷ rest) =
    let trimmed = trim_space line in
    let later = subject_of rest in
    if is_empty trimmed
    then []
    else if has_prefix (codes "subject:") (to_lower trimmed)
    then trim_space (drop 8 trimmed)
    else later

abbrev pub extract_subject : Text → Text
extract_subject bytes = subject_of (split_all 10 bytes)

abbrev pub error_type : ℕ → Text
error_type n =
    if n == 0
    then codes "550 User not found"
    else if n == 1
    then codes "451 Temporary failure"
    else if n == 2
    then codes "452 Insufficient storage"
    else codes "421 Service not available"

-- The captured form of a message, for a mode.
abbrev pub capture : ℕ → Text → Text → List Text → List Text → Text → Message → Captured
capture now domain mode to original_to simulated m = record {
  id = m.id;
  from = m.from;
  to = to;
  original_to = original_to;
  subject = extract_subject m.raw;
  bytes = m.raw;
  domain = domain;
  mode = mode;
  captured_at = now;
  client_ip = m.client_ip;
  simulated_err = simulated;
}

-- A message to other recipients, with a status and the other fields as Go leaves them.
abbrev pub copied : Text → List Text → Message → Message
copied id to m = record {
  id = id;
  from = m.from;
  to = to;
  raw = m.raw;
  status = other [];
  created_at = m.created_at;
  updated_at = m.updated_at;
  next_retry_at = 0;
  retry_count = 0;
  last_error = [];
  client_ip = m.client_ip;
  auth_user = [];
}

module _ (snd : Sender) where
  open snd use {real_send, domain_provider, header_processor, parse_address, save, simulate_errors}

  -- realSender.Send
  abbrev pub hand_over : Message → Outbox → Option SendError × Outbox
  hand_over m o = (real_send m, record o { sent = o.sent ++ (m ∷ []) })

  -- storage.Save where its error is only logged.
  abbrev pub save_logged : Captured → Outbox → Outbox
  save_logged c o = elim (save c o.captured) [ inl err ↦ o | inr cs ↦ record o { captured = cs } ]

  unfoldable pub handle_sandbox : ℕ → Chance → Text → Message → Outbox → Option SendError × Outbox
  handle_sandbox now (unlucky, n) domain m o =
      let err = error_type n in
      if simulate_errors && unlucky
      then (
        some (simulated_error (has_prefix (codes "4") err) err),
        save_logged (capture now domain (codes "sandbox") m.to [] err m) o,
      )
      else elim (save (capture now domain (codes "sandbox") m.to [] [] m) o.captured) [
        | inl text ↦ (some (other_error (codes "sandbox: failed to save message: " ++ text)), o)
        | inr cs ↦ (none, record o { captured = cs })
      ]

  unfoldable pub handle_redirect :
      DomainModes → ℕ → Chance → Text → Message → Outbox → Option SendError × Outbox
  handle_redirect d now chance domain m o =
      let redirect_to = d.get_redirect_addresses domain in
      if is_empty redirect_to
      then handle_sandbox now chance domain m o
      else hand_over (copied m.id redirect_to m)
          (save_logged (capture now domain (codes "redirect") redirect_to m.to [] m) o)

  unfoldable pub handle_bcc : DomainModes → ℕ → Text → Message → Outbox → Option SendError × Outbox
  handle_bcc d now domain m o =
      let bcc_to = d.get_bcc_addresses domain in
      let saved = save_logged (capture now domain (codes "bcc") (m.to ++ bcc_to) m.to [] m) o in
      let (answer, sent) = hand_over m saved in
      if is_empty bcc_to then hand_over m o else elim answer [
        | some err ↦ (some err, sent)
        | none ↦ (none, (hand_over (copied (m.id ++ codes "-bcc") bcc_to m) sent).1)
      ]

  -- The header rules change the message that the queue holds a pointer to.
  unfoldable pub with_rules : Text → Message → Message
  with_rules domain m = elim header_processor [
    | none ↦ m
    | some cfg ↦ record m { raw = process cfg m.raw domain }
  ]

  unfoldable pub route : ℕ → Chance → Text → Message → Outbox → Option SendError × Outbox
  route now chance domain m o = elim domain_provider [
    | none ↦ hand_over m o
    | some d ↦
        let mode = d.get_domain_mode domain in
        if text_eq mode (codes "sandbox")
        then handle_sandbox now chance domain m o
        else if text_eq mode (codes "redirect")
        then handle_redirect d now chance domain m o
        else if text_eq mode (codes "bcc")
        then handle_bcc d now domain m o
        else hand_over m o
  ]

  -- Send
  unfoldable pub send : ℕ → Chance → Message → Outbox → Option SendError × Outbox
  send now chance m o =
      let domain = extract_domain parse_address m.from in
      if is_empty domain then hand_over m o else route now chance domain (with_rules domain m) o
