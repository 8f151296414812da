-- ===== src/Sandbox/Tests.antt =====
-- The properties of the sandbox at concrete inputs.
use sendry.Base.{
  ◌≡◌, refl, true, none, some, inr, [], ◌∷◌, ◌++◌, Text, codes, is_empty, split_last, to_lower,
  text_eq, if◌then◌else◌,
}
use sendry.Email.{extract_domain, after_at}
use sendry.Queue.Message.{Message, status_sending}
use sendry.Sandbox.{Sender, DomainModes, Outbox, copied, with_rules, send}
use sendry.Sandbox.Routes.{send-contained}

abbrev modes : DomainModes
modes = record {
  get_domain_mode =
      λ domain. if text_eq domain (codes "a.org") then codes "redirect" else codes "bcc";
  get_redirect_addresses = λ domain. codes "me@b.org" ∷ [];
  get_bcc_addresses = λ domain. codes "me@b.org" ∷ [];
}

abbrev sender : Sender
sender = record {
  real_send = λ m. none;
  domain_provider = some modes;
  header_processor = none;
  parse_address = λ s. none;
  save = λ c cs. inr (cs ++ (c ∷ []));
  simulate_errors = true;
}

abbrev letter : Text → Message
letter from = record {
  id = codes "a";
  from = from;
  to = codes "v@y.org" ∷ [];
  raw = codes "Hi";
  status = status_sending;
  created_at = 1;
  updated_at = 1;
  next_retry_at = 0;
  retry_count = 0;
  last_error = [];
  client_ip = [];
  auth_user = [];
}

abbrev nothing_sent : Outbox
nothing_sent = record { captured = []; sent = [] }

send-contained_example :
    let m = letter (codes "u@a.org") in
    let domain = extract_domain sender.parse_address m.from in
    let to = modes.get_redirect_addresses domain in
    let sent = (send sender 5 (true, 1) m nothing_sent).1.sent in
    (modes.get_domain_mode domain ≡ codes "sandbox" → sent ≡ [])
    × (modes.get_domain_mode domain ≡ codes "redirect"
        → sent ≡ (
            if is_empty to
            then []
            else []
              ++ (copied (with_rules sender domain m).id to (with_rules sender domain m) ∷ [])))
unfolding extract_domain after_at split_last to_lower
send-contained_example =
    send-contained sender modes 5 (true, 1) (letter (codes "u@a.org")) nothing_sent refl refl
