-- ===== src/Smtp/Client/Reaching.antt =====
-- What has been accepted when internal/smtp/client.go reports a success.
use sendry.Base.{
  ◌≡◌, ◌⊎◌, inl, inr, refl, Bool, Bool-cases, true, false, ◌&&◌, ◌||◌, Option, none, some,
  Option-cases, List, [], ◌∷◌, ◌++◌, Text, Dict, is_empty, any, text_eq, text_eq_iff, text_eq_refl,
  lookup, insert, arith,
}
use sendry.Email.{dns_extract_domain}
use sendry.Queue.Message.{Message, SendError}
use sendry.Smtp.Client.{
  Client, Delivery, dialogue, send_to_mx, try_hosts, send_to_domain, add_recipient,
  group_recipients, send_groups, deliver, is_permanent,
}

-- A recipient is among those of a list.
abbrev pub among : Text → List Text → Bool
among r to = any (λ t. text_eq t r) to

-- Some server has accepted a mail from a sender for a recipient.
unfoldable pub reached : Text → Text → List Delivery → Bool
reached from r [] = false
reached from r (d ∷ log) = (text_eq d.sender from && among r d.recipients) || reached from r log

module _ (c : Client) where
  -- More is accepted, and if there is no error all of a list of recipients are reached.
  abbrev pub Grows : Text → List Text → Option SendError → List Delivery → List Delivery → Type 0
  Grows from to answer log log' =
      (r : Text)
      → (reached from r log ≡ true → reached from r log' ≡ true)
        × (answer ≡ none → among r to ≡ true → reached from r log' ≡ true)

  send_to_mx-Grows :
      (mx from : Text) (to : List Text) (bytes : Text) (log : List Delivery)
      → let (answer, log') = send_to_mx c mx from to bytes log in Grows from to answer log log'
  unfolding send_to_mx reached
  send_to_mx-Grows mx from to bytes log r =
      elim (Option-cases (dialogue c (c.server mx) mx from to)) [
        | inl fine ↦ rw (fine, send_to_mx) (ground (arith, text_eq_refl from))
        | inr (err, failed) ↦ rw (failed, send_to_mx) ((λ h. h), (λ q. absurd (ground (arith, q))))
      ]

  try_hosts-Grows :
      (domain from : Text) (to : List Text) (bytes : Text) (hosts : List Text)
      (last : Option SendError) (log : List Delivery)
      → let (answer, log') = try_hosts c domain from to bytes hosts last log in
        Grows from to answer log log'
  unfolding try_hosts
  try_hosts-Grows domain from to bytes [] none log r = ((λ h. h), (λ q. absurd (ground (arith, q))))
  try_hosts-Grows domain from to bytes [] (some err) log r =
      ((λ h. h), (λ q. absurd (ground (arith, q))))
  try_hosts-Grows domain from to bytes (mx ∷ hosts) last log r =
      let log' = (send_to_mx c mx from to bytes log).1 in
      let first = send_to_mx-Grows mx from to bytes log r in
      elim (Option-cases (send_to_mx c mx from to bytes log).0) [
        | inl fine ↦ rw (try_hosts, fine) (ground (arith, first, fine))
        | inr (err, failed) ↦ elim (Bool-cases (is_permanent err)) [
          | inl final ↦ rw (try_hosts, failed, final) (first.0, (λ q. absurd (ground (arith, q))))
          | inr again ↦
              let rest = try_hosts-Grows domain from to bytes hosts (some err) log' r in
              rw (try_hosts, failed, again) ((λ h. rest.0 (first.0 h)), rest.1)
        ]
      ]

  send_to_domain-Grows :
      (domain from : Text) (to : List Text) (bytes : Text) (log : List Delivery)
      → let (answer, log') = send_to_domain c domain from to bytes log in
        Grows from to answer log log'
  unfolding send_to_domain
  send_to_domain-Grows domain from to bytes log = go (c.lookup_mx domain) refl
    where
      go :
          (found : Text ⊎ List Text)
          → c.lookup_mx domain ≡ found
          → let (answer, log') = send_to_domain c domain from to bytes log in
            Grows from to answer log log'
      go (inl err) h r = rw (h, send_to_domain) ((λ k. k), (λ q. absurd (ground (arith, q))))
      go (inr hosts) h r =
          rw (h, send_to_domain) (try_hosts-Grows domain from to bytes hosts none log r)

  -- A recipient is in one of the groups.
  abbrev pub grouped : Text → Dict (List Text) → Bool
  grouped r groups = any (λ g. among r g.1) groups

  send_groups-reached :
      (from bytes : Text) (groups : Dict (List Text)) (last : Option SendError) (permanent : Bool)
      (log : List Delivery) (r : Text)
      → let (last', (permanent', log')) = send_groups c from bytes groups last permanent log in
        (reached from r log ≡ true → reached from r log' ≡ true)
        × (last' ≡ none → (last ≡ none) × (grouped r groups ≡ true → reached from r log' ≡ true))
  unfolding send_groups any
  send_groups-reached from bytes [] last permanent log r = ground arith
  send_groups-reached from bytes ((domain, to) ∷ groups) last permanent log r =
      let log' = (send_to_domain c domain from to bytes log).1 in
      let first = send_to_domain-Grows domain from to bytes log r in
      elim (Option-cases (send_to_domain c domain from to bytes log).0) [
        | inl fine ↦
            let rest = send_groups-reached from bytes groups last permanent log' r in
            rw (send_groups, fine) (ground (arith, first, fine, rest))
        | inr (err, failed) ↦
            let rest =
              send_groups-reached from bytes groups (some err) (permanent || is_permanent err) log'
                r in
            rw (send_groups, failed) (ground (arith, first, rest))
      ]

  among-append : (r : Text) (xs ys : List Text) → among r (xs ++ ys) ≡ (among r xs || among r ys)
  unfolding any
  among-append r [] ys = refl
  among-append r (x ∷ xs) ys = ground (arith, among-append r xs ys)

  insert-grouped :
      (k r : Text) (v : List Text) (groups : Dict (List Text))
      → among r v ≡ true
      → grouped r (insert k v groups) ≡ true
  unfolding insert any
  insert-grouped k r v [] h = ground (arith, h)
  insert-grouped k r v ((j, w) ∷ groups) h = ground (arith, h, insert-grouped k r v groups h)

  insert-keeps :
      (k r : Text) (v : List Text) (groups : Dict (List Text))
      → ((w : List Text) → lookup k groups ≡ some w → among r w ≡ true → among r v ≡ true)
      → grouped r groups ≡ true
      → grouped r (insert k v groups) ≡ true
  unfolding insert lookup any
  insert-keeps k r v [] f h = absurd (ground (arith, h))
  insert-keeps k r v ((j, w) ∷ groups) f h = elim (Bool-cases (text_eq j k)) [
    | inl same ↦ elim (Bool-cases (among r w)) [
      | inl here ↦ ground (arith, same, f w (ground (arith, same)) here)
      | inr later ↦ ground (arith, same, h, later)
    ]
    | inr differ ↦ elim (Bool-cases (among r w)) [
      | inl here ↦ ground (arith, differ, here)
      | inr later ↦ ground (
        arith,
        differ,
        later,
        insert-keeps k r v groups (λ u q. f u (ground (arith, differ, q)))
            (ground (arith, h, later)),
      )
    ]
  ]

  add_recipient-grouped :
      (domain to r : Text) (groups : Dict (List Text))
      → (grouped r groups ≡ true → grouped r (add_recipient c domain to groups) ≡ true)
        × (text_eq to r ≡ true → grouped r (add_recipient c domain to groups) ≡ true)
  unfolding any
  add_recipient-grouped domain to r groups = elim (Option-cases (lookup domain groups)) [
    | inl new ↦
        rw (add_recipient, new)
          (
            insert-keeps domain r (to ∷ []) groups (λ w q. absurd (ground (arith, q, new))),
            (λ same. insert-grouped domain r (to ∷ []) groups (ground (arith, same))),
          )
    | inr (others, old) ↦
        rw (add_recipient, old)
          (
            insert-keeps domain r (others ++ (to ∷ [])) groups
                (λ w q h. ground (arith, q, old, h, among-append r others (to ∷ []))),
            (λ same.
                insert-grouped domain r (others ++ (to ∷ [])) groups
                  (ground (arith, same, among-append r others (to ∷ [])))),
          )
  ]

  not_first :
      (t r : Text) (to : List Text) → among r (t ∷ to) ≡ true → (t ≡ r → ⊥) → among r to ≡ true
  unfolding any
  not_first t r to a n = ground (arith, a, n, text_eq_iff t r)

  group_recipients-grouped :
      (to : List Text) (groups : Dict (List Text)) (r : Text)
      → is_empty (dns_extract_domain r) ≡ false
      → (grouped r groups ≡ true → grouped r (group_recipients c to groups) ≡ true)
        × (among r to ≡ true → grouped r (group_recipients c to groups) ≡ true)
  unfolding group_recipients any
  group_recipients-grouped [] groups r h = ((λ g. g), (λ q. absurd (ground (arith, q))))
  group_recipients-grouped (t ∷ to) groups r h =
      elim (Bool-cases (is_empty (dns_extract_domain t))) [
        | inl skip ↦
            let rest = group_recipients-grouped to groups r h in
            rw (skip, group_recipients)
              (rest.0, (λ a. rest.1 (not_first t r to a (λ same. ground (arith, skip, h, same)))))
        | inr keep ↦
            let domain = dns_extract_domain t in
            let rest = group_recipients-grouped to (add_recipient c domain t groups) r h in
            let added = add_recipient-grouped domain t r groups in
            rw (keep, group_recipients)
              (
                (λ g. rest.0 (added.0 g)),
                (λ a. elim (Bool-cases (text_eq t r)) [
                  | inl same ↦ rest.0 (added.1 same)
                  | inr differ ↦ rest.1 (ground (arith, a, differ))
                ]),
              )
      ]

  -- When Send reports a success, every recipient whose address has a domain has been reached: some
  -- server has accepted a mail from its sender for that recipient.
  pub deliver-reached :
      (m : Message) (log : List Delivery) (r : Text)
      → among r m.to ≡ true
      → is_empty (dns_extract_domain r) ≡ false
      → (deliver c m log).0 ≡ none
      → reached m.from r (deliver c m log).1 ≡ true
  unfolding deliver
  deliver-reached m log r a h q =
      let groups = group_recipients c m.to [] in
      let sent = send_groups-reached m.from m.raw groups none false log r in
      let there = (group_recipients-grouped m.to [] r h).1 a in
      elim (Bool-cases (is_empty groups)) [
        | inl nobody ↦ absurd (ground (arith, nobody, q))
        | inr somebody ↦ elim (Option-cases (send_groups c m.from m.raw groups none false log).0) [
          | inl fine ↦ ground (arith, somebody, fine, (sent.1 fine).1 there)
          | inr (err, failed) ↦ absurd (ground (arith, somebody, failed, q))
        ]
      ]
