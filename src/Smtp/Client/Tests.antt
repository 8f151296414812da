-- ===== src/Smtp/Client/Tests.antt =====
-- The properties of the client at a mail to two domains, one of which cannot take it now.
use sendry.Base.{
  ◌≡◌, refl, inr, true, false, not, any, Option, none, some, List, [], ◌∷◌, Text, codes, is_empty,
  text_eq, to_lower, lower_byte, split_first, insert, lookup, if◌then◌else◌,
}
use sendry.Email.{dns_extract_domain}
use sendry.Queue.Message.{Message, SendError, delivery_error, status_sending}
use sendry.Smtp.Client.{
  Client, Server, group_recipients, send_groups, send_to_domain, send_to_mx, try_hosts, dialogue,
  refusal, deliver, is_permanent, is_temporary_error, find_code, categorize_error,
}
use sendry.Smtp.Client.Reaching.{reached, deliver-reached}
use sendry.Smtp.Client.Verdict.{failures, deliver-verdict}

abbrev server : Option Text → Server
server greeting = record {
  dial = none;
  new_client = none;
  hello = greeting;
  mail_from = λ from. none;
  rcpt_to = λ to. none;
  data_start = none;
  write = none;
  data_close = none;
}

abbrev client : Client
client = record {
  lookup_mx = λ domain. inr (domain ∷ []);
  server = λ mx. server (if text_eq mx (codes "b") then some (codes "451 busy") else none);
  dkim_provider = none;
  dkim_signer = none;
}

abbrev letter : List Text → Message
letter to = record {
  id = codes "m";
  from = codes "u@x";
  to = to;
  raw = codes "Hi";
  status = status_sending;
  created_at = 1;
  updated_at = 1;
  next_retry_at = 0;
  retry_count = 0;
  last_error = [];
  client_ip = [];
  auth_user = [];
}

abbrev both : Message
both = letter (codes "v@a" ∷ codes "w@b" ∷ [])

deliver-reached_example :
    reached (codes "u@x") (codes "v@a") (deliver client (letter (codes "v@a" ∷ [])) []).1 ≡ true
unfolding dns_extract_domain to_lower lower_byte split_first any text_eq group_recipients lookup
    insert send_groups send_to_domain try_hosts send_to_mx dialogue refusal deliver
deliver-reached_example =
    deliver-reached client (letter (codes "v@a" ∷ [])) [] (codes "v@a") refl refl refl

deliver-verdict_example :
    let fs = failures client (codes "u@x") (codes "Hi") (group_recipients client both.to []) in
    (is_empty fs ≡ true → (deliver client both []).0 ≡ none)
    × (is_empty fs ≡ false
        → (err : SendError) × ((deliver client both []).0 ≡ some err)
          × (is_temporary_error err ≡ not (any is_permanent fs)))
unfolding dns_extract_domain to_lower lower_byte split_first group_recipients lookup insert text_eq
deliver-verdict_example = deliver-verdict client both [] refl

-- The domain a has the mail, and the error is a temporary one.
again_for_both :
    ((deliver client both []).0 ≡ some (delivery_error true (codes "HELO failed: 451 busy")))
    × (reached (codes "u@x") (codes "v@a") (deliver client both []).1 ≡ true)
unfolding dns_extract_domain to_lower lower_byte split_first any text_eq group_recipients lookup
    insert send_groups send_to_domain try_hosts send_to_mx dialogue refusal deliver find_code
    categorize_error is_permanent reached
again_for_both = (refl, refl)
