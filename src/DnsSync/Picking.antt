-- ===== src/DnsSync/Picking.antt =====
-- Which record internal/web/dnssync/sync.go takes for the current one.
use sendry.Base.{
  ◌≡◌, refl, Bool, Bool-cases, true, false, inl, inr, none, some, List, [], ◌∷◌, Text, is_empty,
  text_eq_iff, any, trim_space, trim_left, trim_right, arith,
}
use sendry.DnsSync.{
  DnsRecord, first_with, is_exact, is_family, pick_family, pick_matching_record, normalize_txt,
  join, trim_quote_end, words, decide_action, action_noop, action_update,
}

first_with-any :
    (p : DnsRecord → Bool) (rs : List DnsRecord)
    → any p rs ≡ true
    → (r : DnsRecord) × (first_with p rs ≡ some r) × (p r ≡ true)
unfolding first_with any
first_with-any p [] h = absurd (ground (arith, h))
first_with-any p (r ∷ rs) h = elim (Bool-cases (p r)) [
  | inl here ↦ (r, ground (arith, here), here)
  | inr later ↦
      let (found, q, t) = first_with-any p rs (ground (arith, h, later)) in
      (found, ground (arith, later, q), t)
]

pub first_with-none :
    (p : DnsRecord → Bool) (rs : List DnsRecord) → any p rs ≡ false → first_with p rs ≡ none
unfolding first_with any
first_with-none p [] h = refl
first_with-none p (r ∷ rs) h = ground (arith, h, first_with-none p rs)

-- A record with the expected value is taken if there is one.
pub pick-exact :
    (rs : List DnsRecord) (expected : Text)
    → any (is_exact expected) rs ≡ true
    → is_exact expected (pick_matching_record rs expected) ≡ true
unfolding pick_matching_record any
pick-exact [] expected h = absurd (ground (arith, h))
pick-exact (r ∷ rs) expected h =
    let (found, q, t) = first_with-any (is_exact expected) (r ∷ rs) h in
    rw (pick_matching_record, q) t

-- The first record is taken if there is none with the value or the tag that is expected.
pub pick-first :
    (r : DnsRecord) (rs : List DnsRecord) (expected : Text)
    → any (is_exact expected) (r ∷ rs) ≡ false
    → any (is_family expected) (r ∷ rs) ≡ false
    → pick_matching_record (r ∷ rs) expected ≡ r
unfolding pick_matching_record pick_family
pick-first r rs expected x f = ground (
  arith,
  first_with-none (is_exact expected) (r ∷ rs) x,
  first_with-none (is_family expected) (r ∷ rs) f,
)

normalize_blank : (s : Text) → is_empty (normalize_txt s) ≡ false → is_empty s ≡ false
unfolding normalize_txt join trim_quote_end words trim_space trim_left trim_right
normalize_blank [] h = ground (arith, h)
normalize_blank (c ∷ s) h = refl

-- Nothing is done about a record that has the expected value.
pub decide-exact :
    (expected : Text) (r : DnsRecord)
    → is_empty (normalize_txt expected) ≡ false
    → is_exact expected r ≡ true
    → (decide_action expected r.content).0 ≡ action_noop
unfolding decide_action is_exact
decide-exact expected r e x =
    let same = text_eq_iff (normalize_txt r.content) (normalize_txt expected) in
    let back = text_eq_iff (normalize_txt expected) (normalize_txt r.content) in
    ground (arith, x, same, back, normalize_blank r.content (ground (arith, e, x, same)))

-- One that has content but not the value is to be changed.
pub decide-other :
    (expected : Text) (r : DnsRecord)
    → is_empty r.content ≡ false
    → is_exact expected r ≡ false
    → (decide_action expected r.content).0 ≡ action_update
unfolding decide_action is_exact
decide-other expected r e x =
    let same = text_eq_iff (normalize_txt r.content) (normalize_txt expected) in
    let back = text_eq_iff (normalize_txt expected) (normalize_txt r.content) in
    ground (arith, e, x, same, back)
