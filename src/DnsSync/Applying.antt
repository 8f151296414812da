-- ===== src/DnsSync/Applying.antt =====
-- What the methods Plan and Apply of internal/web/dnssync/sync.go do with an entry.
use sendry.Base.{
  ◌≡◌, ◌⊎◌, refl, Bool-cases, true, false, inl, inr, Option, none, some, List, ◌∷◌, Text, is_empty,
  any, arith,
}
use sendry.DnsSync.{
  DnsRecord, PlanEntry, Provider, SyncResult, SyncAction, action_noop, action_create, action_update,
  action_skip, unset, skips, decided_on, outcome, plan_entry, apply_entry, carry_out,
  pick_matching_record, is_exact, is_family, decide_action, normalize_txt,
}
use sendry.DnsSync.Picking.{pick-exact, pick-first, decide-exact, decide-other}

module _ (pr : Provider) where
  open pr use {Zones, resolve_zone, list_records, create_record, update_record}

  -- The two results tell the same of what is decided and why.
  abbrev pub Agrees : SyncResult → SyncResult → Type 0
  Agrees a b =
      (a.decided ≡ b.decided) × (a.why ≡ b.why) × (a.current ≡ b.current) × (a.entry ≡ b.entry)

  outcome-Agrees :
      (res : SyncResult) (o : Option Text) (a : SyncAction)
      → res.decided ≡ a
      → ((outcome res o).decided ≡ a)
        × ((outcome res o).why ≡ res.why)
        × ((outcome res o).current ≡ res.current)
        × ((outcome res o).entry ≡ res.entry)
  outcome-Agrees res none a h = (h, refl, refl, refl)
  outcome-Agrees res (some err) a h = (h, refl, refl, refl)

  -- Left untouched unless it is created or updated.
  abbrev pub Untouched : SyncAction → Zones → Zones → Type 0
  Untouched action_create z z' = Unit {0}
  Untouched action_update z z' = Unit {0}
  Untouched _ z z' = z' ≡ z

  carry_out-Agrees :
      (z : Zones) (zone : Text) (e : PlanEntry) (found : DnsRecord)
      → let r = carry_out pr z zone e found in
        Agrees r.0 (decided_on e found.content)
        × Untouched (decided_on e found.content).decided z r.1
  unfolding carry_out
  carry_out-Agrees z zone e found = go (decide_action e.expected found.content).0 refl
    where
      go :
          (a : SyncAction)
          → (decide_action e.expected found.content).0 ≡ a
          → let r = carry_out pr z zone e found in
            Agrees r.0 (decided_on e found.content)
            × Untouched (decided_on e found.content).decided z r.1
      go action_create h =
          rw (carry_out, h)
            (
              outcome-Agrees (decided_on e found.content)
                  (create_record z zone e.record_type e.name e.expected).0 action_create h,
              tt,
            )
      go action_update h =
          rw (carry_out, h)
            (
              outcome-Agrees (decided_on e found.content)
                  (update_record z zone found.record_id e.record_type e.name e.expected).0
                  action_update h,
              tt,
            )
      go action_noop h = rw (carry_out, h) ((h, refl, refl, refl), refl)
      go action_skip h = rw (carry_out, h) ((h, refl, refl, refl), refl)
      go unset h = rw (carry_out, h) ((h, refl, refl, refl), refl)

  -- Apply does what the method Plan shows: on the same records an entry gets the same action, for
  -- the same reason and over the same current value, and if the action is neither to create nor to
  -- update, Apply leaves the records as they are.
  pub apply_entry-Agrees :
      (z : Zones) (e : PlanEntry)
      → let r = apply_entry pr z e in
        let shown = plan_entry pr z e in Agrees r.0 shown × Untouched shown.decided z r.1
  unfolding apply_entry plan_entry
  apply_entry-Agrees z e = elim (Bool-cases (skips e)) [
    | inl skip ↦ rw (apply_entry, plan_entry, skip) ((refl, refl, refl, refl), refl)
    | inr keep ↦ go (resolve_zone z e.name) refl keep
  ]
    where
      in_zone :
          (zone : Text) (found : Text ⊎ List DnsRecord)
          → skips e ≡ false
          → resolve_zone z e.name ≡ inr zone
          → list_records z zone e.name e.record_type ≡ found
          → let r = apply_entry pr z e in
            let shown = plan_entry pr z e in Agrees r.0 shown × Untouched shown.decided z r.1
      in_zone zone (inl err) keep h l =
          rw (apply_entry, plan_entry, keep, h, l) ((refl, refl, refl, refl), refl)
      in_zone zone (inr records) keep h l =
          rw (apply_entry, plan_entry, keep, h, l)
            (carry_out-Agrees z zone e (pick_matching_record records e.expected))

      go :
          (zone : Text ⊎ Text)
          → resolve_zone z e.name ≡ zone
          → skips e ≡ false
          → let r = apply_entry pr z e in
            let shown = plan_entry pr z e in Agrees r.0 shown × Untouched shown.decided z r.1
      go (inl err) h keep = rw (apply_entry, plan_entry, keep, h) ((refl, refl, refl, refl), refl)
      go (inr zone) h keep = in_zone zone (list_records z zone e.name e.record_type) keep h refl

  carry_out-update :
      (z : Zones) (zone : Text) (e : PlanEntry) (found : DnsRecord)
      → (decide_action e.expected found.content).0 ≡ action_update
      → (carry_out pr z zone e found).1
        ≡ (update_record z zone found.record_id e.record_type e.name e.expected).1
  unfolding carry_out
  carry_out-update z zone e found h = rw (carry_out, h) refl

  carry_out-noop :
      (z : Zones) (zone : Text) (e : PlanEntry) (found : DnsRecord)
      → (decide_action e.expected found.content).0 ≡ action_noop
      → ((carry_out pr z zone e found).0.decided ≡ action_noop)
        × ((carry_out pr z zone e found).1 ≡ z)
  unfolding carry_out
  carry_out-noop z zone e found h = rw (carry_out, h) (h, refl)

  apply_entry-carry_out :
      (z : Zones) (e : PlanEntry) (zone : Text) (records : List DnsRecord)
      → skips e ≡ false
      → resolve_zone z e.name ≡ inr zone
      → list_records z zone e.name e.record_type ≡ inr records
      → apply_entry pr z e ≡ carry_out pr z zone e (pick_matching_record records e.expected)
  unfolding apply_entry
  apply_entry-carry_out z e zone records keep h l = rw (apply_entry, keep, h, l) refl

  -- When the zone and the records of an entry's name are found, and one of them has the expected
  -- value, which is not blank, up to quotation marks and white space, Apply decides that there is
  -- nothing to do and leaves the records as they are, whatever other records the name has.
  pub apply_entry-settled :
      (z : Zones) (e : PlanEntry) (zone : Text) (records : List DnsRecord)
      → skips e ≡ false
      → resolve_zone z e.name ≡ inr zone
      → list_records z zone e.name e.record_type ≡ inr records
      → is_empty (normalize_txt e.expected) ≡ false
      → any (is_exact e.expected) records ≡ true
      → ((apply_entry pr z e).0.decided ≡ action_noop) × ((apply_entry pr z e).1 ≡ z)
  apply_entry-settled z e zone records keep h l full x =
      let found = pick_matching_record records e.expected in
      rw (apply_entry-carry_out z e zone records keep h l) (
        carry_out-noop z zone e found
          (decide-exact e.expected found full (pick-exact records e.expected x)))

  -- When the zone and the records of an entry's name are found, and there are some, the first one
  -- not empty, but none with the expected value or its tag, Apply writes the expected value over
  -- the first of them.
  pub apply_entry-overwrites :
      (z : Zones) (e : PlanEntry) (zone : Text) (r : DnsRecord) (rs : List DnsRecord)
      → skips e ≡ false
      → resolve_zone z e.name ≡ inr zone
      → list_records z zone e.name e.record_type ≡ inr (r ∷ rs)
      → is_empty r.content ≡ false
      → any (is_exact e.expected) (r ∷ rs) ≡ false
      → any (is_family e.expected) (r ∷ rs) ≡ false
      → (apply_entry pr z e).1
        ≡ (update_record z zone r.record_id e.record_type e.name e.expected).1
  apply_entry-overwrites z e zone r rs keep h l full x f =
      let first : is_exact e.expected r ≡ false = unfold any in ground (arith, x) in
      rw (apply_entry-carry_out z e zone (r ∷ rs) keep h l, pick-first r rs e.expected x f)
        (carry_out-update z zone e r (decide-other e.expected r full first))
