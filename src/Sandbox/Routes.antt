-- ===== src/Sandbox/Routes.antt =====
-- What internal/sandbox/sender.go hands to the real sender.
use sendry.Base.{
  ℕ, ◌≡◌, ◌⊎◌, inl, inr, refl, ap, ◌∙◌, Bool-cases, false, ◌&&◌, Option, none, some, Option-cases,
  List, [], ◌∷◌, ◌++◌, append_assoc, Text, codes, is_empty, text_eq, if◌then◌else◌, arith,
}
use sendry.Email.{extract_domain}
use sendry.Queue.Message.{Message, SendError, other_error}
use sendry.Sandbox.{
  Sender, DomainModes, Outbox, Chance, Captured, capture, copied, save_logged, handle_sandbox,
  handle_redirect, handle_bcc, with_rules, route, send, error_type,
}

module _ (snd : Sender) where
  open snd use {real_send, domain_provider, parse_address, save, simulate_errors}

  save_logged-sent : (c : Captured) (o : Outbox) → (save_logged snd c o).sent ≡ o.sent
  save_logged-sent c o = go (save c o.captured)
    where
      go :
          (r : Text ⊎ List Captured)
          → (elim r as (λ x. Outbox) [ inl err ↦ o | inr cs ↦ record o { captured = cs } ]).sent
            ≡ o.sent
      go (inl err) = refl
      go (inr cs) = refl

  handle_sandbox-sent :
      (now : ℕ) (chance : Chance) (domain : Text) (m : Message) (o : Outbox)
      → (handle_sandbox snd now chance domain m o).1.sent ≡ o.sent
  unfolding handle_sandbox
  handle_sandbox-sent now (unlucky, n) domain m o = elim (Bool-cases (simulate_errors && unlucky)) [
    | inl fails ↦
        rw fails
          (save_logged-sent (capture now domain (codes "sandbox") m.to [] (error_type n) m) o)
    | inr works ↦
        rw works (go (save (capture now domain (codes "sandbox") m.to [] [] m) o.captured))
  ]
    where
      go :
          (r : Text ⊎ List Captured)
          → (elim r as (λ x. Option SendError × Outbox) [
            | inl text ↦ (some (other_error (codes "sandbox: failed to save message: " ++ text)), o)
            | inr cs ↦ (none, record o { captured = cs })
          ]).1.sent
            ≡ o.sent
      go (inl text) = refl
      go (inr cs) = refl

  handle_redirect-sent :
      (d : DomainModes) (now : ℕ) (chance : Chance) (domain : Text) (m : Message) (o : Outbox)
      → let to = d.get_redirect_addresses domain in
        (handle_redirect snd d now chance domain m o).1.sent
        ≡ (if is_empty to then o.sent else o.sent ++ (copied m.id to m ∷ []))
  unfolding handle_redirect
  handle_redirect-sent d now chance domain m o =
      let to = d.get_redirect_addresses domain in
      elim (Bool-cases (is_empty to)) [
        | inl nobody ↦ rw nobody (handle_sandbox-sent now chance domain m o)
        | inr somebody ↦
            rw (somebody, save_logged-sent (capture now domain (codes "redirect") to m.to [] m) o)
              refl
      ]

  handle_bcc-sent :
      (d : DomainModes) (now : ℕ) (domain : Text) (m : Message) (o : Outbox)
      → let to = d.get_bcc_addresses domain in
        let (answer, o') = handle_bcc snd d now domain m o in
        (answer ≡ real_send m)
        × ((real_send m ≡ none
              → is_empty to ≡ false
              → o'.sent ≡ o.sent ++ (m ∷ (copied (m.id ++ codes "-bcc") to m ∷ [])))
            × ((err : SendError) → real_send m ≡ some err → o'.sent ≡ o.sent ++ (m ∷ [])))
  unfolding handle_bcc
  handle_bcc-sent d now domain m o =
      let to = d.get_bcc_addresses domain in
      let c = capture now domain (codes "bcc") (m.to ++ to) m.to [] m in
      let same = save_logged-sent c o in
      let twice = append_assoc o.sent (m ∷ []) (copied (m.id ++ codes "-bcc") to m ∷ []) in
      elim (Bool-cases (is_empty to)) [
        | inl nobody ↦ rw nobody (refl, ((λ q b. absurd (ground (arith, b))), (λ err q. refl)))
        | inr somebody ↦ elim (Option-cases (real_send m)) [
          | inl fine ↦ ground (arith, somebody, fine, same, twice)
          | inr (err, failed) ↦ ground (arith, somebody, failed, same)
        ]
      ]

  send_named :
      (now : ℕ) (chance : Chance) (m : Message) (o : Outbox)
      → let domain = extract_domain parse_address m.from in
        is_empty domain ≡ false
        → send snd now chance m o ≡ route snd now chance domain (with_rules snd domain m) o
  unfolding send
  send_named now chance m o named = rw named refl

  route_sandbox :
      (d : DomainModes) (now : ℕ) (chance : Chance) (domain : Text) (m : Message) (o : Outbox)
      → domain_provider ≡ some d
      → d.get_domain_mode domain ≡ codes "sandbox"
      → route snd now chance domain m o ≡ handle_sandbox snd now chance domain m o
  unfolding route text_eq
  route_sandbox d now chance domain m o p mode = ground (arith, p, mode)

  route_redirect :
      (d : DomainModes) (now : ℕ) (chance : Chance) (domain : Text) (m : Message) (o : Outbox)
      → domain_provider ≡ some d
      → d.get_domain_mode domain ≡ codes "redirect"
      → route snd now chance domain m o ≡ handle_redirect snd d now chance domain m o
  unfolding route text_eq
  route_redirect d now chance domain m o p mode = ground (arith, p, mode)

  route_bcc :
      (d : DomainModes) (now : ℕ) (chance : Chance) (domain : Text) (m : Message) (o : Outbox)
      → domain_provider ≡ some d
      → d.get_domain_mode domain ≡ codes "bcc"
      → route snd now chance domain m o ≡ handle_bcc snd d now domain m o
  unfolding route text_eq
  route_bcc d now chance domain m o p mode = ground (arith, p, mode)

  -- The mail of a domain in the mode sandbox, or redirect, never reaches its recipients: in the mode
  -- sandbox nothing is handed to the real sender, whether an error is simulated and whether the
  -- capture can be saved or not, and in the mode redirect nothing but a copy for the configured
  -- addresses, or nothing if there are none.
  pub send-contained :
      (d : DomainModes) (now : ℕ) (chance : Chance) (m : Message) (o : Outbox)
      → let domain = extract_domain parse_address m.from in
        domain_provider ≡ some d
        → is_empty domain ≡ false
        → let to = d.get_redirect_addresses domain in
          let sent = (send snd now chance m o).1.sent in
          ((d.get_domain_mode domain ≡ codes "sandbox" → sent ≡ o.sent)
            × (d.get_domain_mode domain ≡ codes "redirect"
                → sent ≡ (
                    if is_empty to
                    then o.sent
                    else o.sent
                      ++ (copied (with_rules snd domain m).id to (with_rules snd domain m) ∷ []))))
  send-contained d now chance m o p named =
      let domain = extract_domain parse_address m.from in
      let m' = with_rules snd domain m in
      let start = send_named now chance m o named in
      (
        (λ mode.
            ap (λ r. r.1.sent) (start ∙ route_sandbox d now chance domain m' o p mode)
            ∙ handle_sandbox-sent now chance domain m' o),
        (λ mode.
            ap (λ r. r.1.sent) (start ∙ route_redirect d now chance domain m' o p mode)
            ∙ handle_redirect-sent d now chance domain m' o),
      )

  -- In the mode bcc the mail itself is handed over with the rules applied, and its outcome is that
  -- of the call; a copy for the configured addresses, if there are any, is handed over after it
  -- only if that succeeded, and a failure of the copy is not reported.
  send-bcc :
      (d : DomainModes) (now : ℕ) (chance : Chance) (m : Message) (o : Outbox)
      → let domain = extract_domain parse_address m.from in
        let m' = with_rules snd domain m in
        let to = d.get_bcc_addresses domain in
        domain_provider ≡ some d
        → is_empty domain ≡ false
        → d.get_domain_mode domain ≡ codes "bcc"
        → let (answer, o') = send snd now chance m o in
          (answer ≡ real_send m')
          × ((real_send m' ≡ none
                → is_empty to ≡ false
                → o'.sent ≡ o.sent ++ (m' ∷ (copied (m'.id ++ codes "-bcc") to m' ∷ [])))
              × ((err : SendError) → real_send m' ≡ some err → o'.sent ≡ o.sent ++ (m' ∷ [])))
  send-bcc d now chance m o p named mode =
      let domain = extract_domain parse_address m.from in
      let m' = with_rules snd domain m in
      rw (send_named now chance m o named ∙ route_bcc d now chance domain m' o p mode)
        (handle_bcc-sent d now domain m' o)
