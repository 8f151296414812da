-- ===== src/Smtp/Client/Verdict.antt =====
-- Which error internal/smtp/client.go reports for a mail to several domains.
use sendry.Base.{
  ◌≡◌, ◌⊎◌, inl, inr, refl, Bool, Bool-cases, true, false, not, ◌||◌, Option, none, some,
  Option-cases, List, [], ◌∷◌, Text, Dict, is_empty, any, arith,
}
use sendry.Queue.Message.{Message, SendError, delivery_error, error_text}
use sendry.Smtp.Client.{
  Client, Delivery, dialogue, send_to_mx, try_hosts, send_to_domain, group_recipients, send_groups,
  deliver, is_permanent, is_temporary_error,
}

module _ (c : Client) where
  -- The errors of the domains of a mail, in their order.
  unfoldable pub failures : Text → Text → Dict (List Text) → List SendError
  failures from bytes [] = []
  failures from bytes ((domain, to) ∷ groups) =
      let rest = failures from bytes groups in
      elim (send_to_domain c domain from to bytes []).0 [ none ↦ rest | some err ↦ err ∷ rest ]

  try_hosts-same :
      (domain from : Text) (to : List Text) (bytes : Text) (hosts : List Text)
      (last : Option SendError) (log log' : List Delivery)
      → (try_hosts c domain from to bytes hosts last log).0
        ≡ (try_hosts c domain from to bytes hosts last log').0
  unfolding try_hosts send_to_mx
  try_hosts-same domain from to bytes [] none log log' = refl
  try_hosts-same domain from to bytes [] (some err) log log' = refl
  try_hosts-same domain from to bytes (mx ∷ hosts) last log log' =
      elim (Option-cases (dialogue c (c.server mx) mx from to)) [
        | inl fine ↦ rw (try_hosts, send_to_mx, fine) refl
        | inr (err, failed) ↦ elim (Bool-cases (is_permanent err)) [
          | inl final ↦ ground (arith, failed, final)
          | inr again ↦
              ground (
                arith,
                failed,
                again,
                try_hosts-same domain from to bytes hosts (some err) log log',
              )
        ]
      ]

  -- What a domain answers does not depend on what has been accepted before.
  send_to_domain-same :
      (domain from : Text) (to : List Text) (bytes : Text) (log : List Delivery)
      → (send_to_domain c domain from to bytes log).0 ≡ (send_to_domain c domain from to bytes []).0
  unfolding send_to_domain
  send_to_domain-same domain from to bytes log = go (c.lookup_mx domain) refl
    where
      go :
          (found : Text ⊎ List Text)
          → c.lookup_mx domain ≡ found
          → (send_to_domain c domain from to bytes log).0
            ≡ (send_to_domain c domain from to bytes []).0
      go (inl err) h = rw (send_to_domain, h) refl
      go (inr hosts) h =
          rw (send_to_domain, h) (try_hosts-same domain from to bytes hosts none log [])

  -- The last error and the flag after the loop, by the errors of the domains.
  send_groups-failures :
      (from bytes : Text) (groups : Dict (List Text)) (last : Option SendError) (permanent : Bool)
      (log : List Delivery)
      → let (last', (permanent', log')) = send_groups c from bytes groups last permanent log in
        let fs = failures from bytes groups in
        (permanent' ≡ (permanent || any is_permanent fs))
        × ((is_empty fs ≡ true → last' ≡ last) × (is_empty fs ≡ false → last' ≡ none → ⊥))
  unfolding send_groups failures any
  send_groups-failures from bytes [] last permanent log = ground arith
  send_groups-failures from bytes ((domain, to) ∷ groups) last permanent log =
      let log' = (send_to_domain c domain from to bytes log).1 in
      let same = send_to_domain-same domain from to bytes log in
      elim (Option-cases (send_to_domain c domain from to bytes log).0) [
        | inl fine ↦
            let rest = send_groups-failures from bytes groups last permanent log' in
            ground (arith, same, fine, rest)
        | inr (err, failed) ↦
            let rest =
              send_groups-failures from bytes groups (some err) (permanent || is_permanent err)
                log' in
            ground (arith, same, failed, rest)
      ]

  -- For a mail with a recipient that has a domain, Send reports a success if no domain fails, and
  -- else an error, which is temporary exactly if no domain fails for good, whichever other domains
  -- have accepted the mail.
  pub deliver-verdict :
      (m : Message) (log : List Delivery)
      → let groups = group_recipients c m.to [] in
        let fs = failures m.from m.raw groups in
        is_empty groups ≡ false
        → (is_empty fs ≡ true → (deliver c m log).0 ≡ none)
          × (is_empty fs ≡ false
              → (err : SendError) × ((deliver c m log).0 ≡ some err)
                × (is_temporary_error err ≡ not (any is_permanent fs)))
  unfolding deliver is_temporary_error
  deliver-verdict m log somebody =
      let groups = group_recipients c m.to [] in
      let r = send_groups-failures m.from m.raw groups none false log in
      let out = send_groups c m.from m.raw groups none false log in
      (
        (λ f. ground (arith, somebody, r.1.0 f)),
        (λ f. elim (Option-cases out.0) [
          | inl q ↦ absurd (r.1.1 f q)
          | inr (err, q) ↦ (
            delivery_error (not out.1.0) (error_text err),
            ground (arith, somebody, q),
            ground (arith, r.0),
          )
        ]),
      )
