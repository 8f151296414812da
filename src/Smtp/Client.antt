-- ===== src/Smtp/Client.antt =====
-- internal/smtp/client.go: the delivery of a mail to the servers of its recipients. The resolver, the
-- DKIM signers and the answers of the servers are parameters; what a server has accepted is kept
-- as a list. The range over a map is in the order of its entries.
pub mod Reaching
pub mod Verdict
mod Tests
use sendry.Base.{
  ℕ, Bool, true, false, not, ◌&&◌, ◌||◌, ◌⊎◌, inl, inr, Option, none, some, List, [], ◌∷◌, ◌++◌,
  Text, Dict, codes, is_empty, any, text_eq, lookup, insert, leb, ◌==◌, if◌then◌else◌,
}
use sendry.Email.{dns_extract_domain}
use sendry.Queue.Message.{
  Message, SendError, delivery_error, simulated_error, other_error, error_text,
}

-- What one server answers: the text of an error, or `none`.
pub record Server : Type 0 where
  pub dial : Option Text
  pub new_client : Option Text
  pub hello : Option Text
  pub mail_from : Text → Option Text
  pub rcpt_to : Text → Option Text
  pub data_start : Option Text
  pub write : Option Text
  pub data_close : Option Text

-- A signer gives the signed text, or `none` for an error.
abbrev pub Signer : Type 0
Signer = Text → Option Text

-- `lookup_mx` gives the text of an error or the hosts in their order.
pub record Client : Type 0 where
  pub lookup_mx : Text → Text ⊎ List Text
  pub server : Text → Server
  pub dkim_provider : Option (Text → Option Signer)
  pub dkim_signer : Option Signer

-- What a server has accepted.
pub record Delivery : Type 0 where
  pub mx : Text
  pub sender : Text
  pub recipients : List Text
  pub bytes : Text

abbrev pub is_digit : ℕ → Bool
is_digit c = leb b'0' c && leb c b'9'

abbrev pub is_word : ℕ → Bool
is_word c = is_digit c || ((leb b'a' c && leb c b'z') || ((leb b'A' c && leb c b'Z') || c == b'_'))

abbrev pub starts_word : Text → Bool
starts_word [] = false
starts_word (c ∷ s) = is_word c

-- A code at the start of a text: 4 or 5 and two digits, and then no word goes on.
abbrev pub code_at : Text → Bool
code_at (c ∷ (d ∷ (e ∷ s))) =
    (c == b'4' || c == b'5') && (is_digit d && (is_digit e && not (starts_word s)))
code_at _ = false

-- The first digit of the first match of \b(4\d{2}|5\d{2})\b; the flag says whether a word comes
-- before.
unfoldable pub find_code : Bool → Text → Option ℕ
find_code before [] = none
find_code before (c ∷ s) =
    let later = find_code (is_word c) s in if not before && code_at (c ∷ s) then some c else later

-- categorizeError
unfoldable pub categorize_error : Text → Text → SendError
categorize_error err stage =
    delivery_error (elim (find_code false err) [ none ↦ true | some c ↦ not (c == b'5') ])
      (stage ++ (codes " failed: " ++ err))

-- IsTemporaryError
unfoldable pub is_temporary_error : SendError → Bool
is_temporary_error (delivery_error temporary s) = temporary
is_temporary_error (simulated_error temporary s) = true
is_temporary_error (other_error s) = true

-- err.(*DeliveryError) that is not temporary
unfoldable pub is_permanent : SendError → Bool
is_permanent (delivery_error temporary s) = not temporary
is_permanent (simulated_error temporary s) = false
is_permanent (other_error s) = false

-- The loop over the recipients: the first refusal.
unfoldable pub refusal : (Text → Option Text) → List Text → Option SendError
refusal rcpt_to [] = none
refusal rcpt_to (to ∷ rest) = elim (rcpt_to to) [
  | none ↦ refusal rcpt_to rest
  | some err ↦ some (categorize_error err (codes "RCPT TO " ++ to))
]

module _ (c : Client) where
  unfoldable pub get_dkim_signer : Text → Option Signer
  get_dkim_signer from =
      let own : Option Signer = elim c.dkim_provider [ none ↦ none | some get ↦ get from ] in
      elim own [ some signer ↦ some signer | none ↦ c.dkim_signer ]

  -- The text that is sent: signed, if there is a signer and it does not fail.
  unfoldable pub message_data : Text → Text → Text
  message_data from bytes = elim (get_dkim_signer from) [
    | none ↦ bytes
    | some sign ↦ elim (sign bytes) [ none ↦ bytes | some signed ↦ signed ]
  ]

  -- The dialogue with a server, up to the first error.
  unfoldable pub dialogue : Server → Text → Text → List Text → Option SendError
  dialogue s mx from to = elim s.dial [
    | some err ↦
        some (delivery_error true (codes "connection failed to " ++ (mx ++ (codes ":25: " ++ err))))
    | none ↦ elim s.new_client [
      | some err ↦ some (delivery_error true (codes "SMTP client creation failed: " ++ err))
      | none ↦ elim s.hello [
        | some err ↦ some (categorize_error err (codes "HELO"))
        | none ↦ elim (s.mail_from from) [
          | some err ↦ some (categorize_error err (codes "MAIL FROM"))
          | none ↦ elim (refusal s.rcpt_to to) [
            | some err ↦ some err
            | none ↦ elim s.data_start [
              | some err ↦ some (categorize_error err (codes "DATA"))
              | none ↦ elim s.write [
                | some err ↦
                    some (delivery_error true (codes "failed to write message data: " ++ err))
                | none ↦ elim s.data_close [
                  | some err ↦ some (categorize_error err (codes "DATA close"))
                  | none ↦ none
                ]
              ]
            ]
          ]
        ]
      ]
    ]
  ]

  -- sendToMX
  unfoldable pub send_to_mx :
      Text → Text → List Text → Text → List Delivery → Option SendError × List Delivery
  send_to_mx mx from to bytes log = elim (dialogue (c.server mx) mx from to) [
    | some err ↦ (some err, log)
    | none ↦ (
      none,
      record { mx = mx; sender = from; recipients = to; bytes = message_data from bytes } ∷ log,
    )
  ]

  -- The loop over the hosts, with the last error so far.
  unfoldable pub try_hosts :
      Text
      → Text
      → List Text
      → Text
      → List Text
      → Option SendError
      → List Delivery
      → Option SendError × List Delivery
  try_hosts domain from to bytes [] last log = elim last [
    | some err ↦ (some err, log)
    | none ↦ (some (delivery_error true (codes "no MX hosts available for " ++ domain)), log)
  ]
  try_hosts domain from to bytes (mx ∷ hosts) last log =
      let (answer, log') = send_to_mx mx from to bytes log in
      elim answer [
        | none ↦ (none, log')
        | some err ↦
            let next = try_hosts domain from to bytes hosts (some err) log' in
            if is_permanent err then (some err, log') else next
      ]

  -- sendToDomain
  unfoldable pub send_to_domain :
      Text → Text → List Text → Text → List Delivery → Option SendError × List Delivery
  send_to_domain domain from to bytes log = elim (c.lookup_mx domain) [
    | inl err ↦ (
      some (delivery_error true (codes "MX lookup failed for " ++ (domain ++ (codes ": " ++ err)))),
      log,
    )
    | inr hosts ↦ try_hosts domain from to bytes hosts none log
  ]

  -- byDomain[domain] = append(byDomain[domain], to)
  abbrev pub add_recipient : Text → Text → Dict (List Text) → Dict (List Text)
  add_recipient domain to groups = elim (lookup domain groups) [
    | none ↦ insert domain (to ∷ []) groups
    | some others ↦ insert domain (others ++ (to ∷ [])) groups
  ]

  -- The loop that groups the recipients; one without a domain is skipped.
  unfoldable pub group_recipients : List Text → Dict (List Text) → Dict (List Text)
  group_recipients [] groups = groups
  group_recipients (to ∷ rest) groups =
      let domain = dns_extract_domain to in
      let skipped = group_recipients rest groups in
      let added = group_recipients rest (add_recipient domain to groups) in
      if is_empty domain then skipped else added

  -- The loop over the domains: the last error, whether one was permanent, and what is accepted.
  unfoldable pub send_groups :
      Text
      → Text
      → Dict (List Text)
      → Option SendError
      → Bool
      → List Delivery
      → Option SendError × (Bool × List Delivery)
  send_groups from bytes [] last permanent log = (last, (permanent, log))
  send_groups from bytes ((domain, to) ∷ groups) last permanent log =
      let (answer, log') = send_to_domain domain from to bytes log in
      elim answer [
        | none ↦ send_groups from bytes groups last permanent log'
        | some err ↦ send_groups from bytes groups (some err) (permanent || is_permanent err) log'
      ]

  -- Send
  unfoldable pub deliver : Message → List Delivery → Option SendError × List Delivery
  deliver m log =
      let groups = group_recipients m.to [] in
      let (last, (permanent, log')) = send_groups m.from m.raw groups none false log in
      if is_empty groups
      then (some (delivery_error false (codes "no valid recipients")), log)
      else elim last [
        | none ↦ (none, log')
        | some err ↦ (some (delivery_error (not permanent) (error_text err)), log')
      ]
