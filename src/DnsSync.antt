-- ===== src/DnsSync.antt =====
-- internal/web/dnssync/plan.go and internal/web/dnssync/sync.go: the DNS records that a domain should
-- have, and how they are brought about at a provider, which is a parameter. White space and letter
-- case are those of ASCII.
mod Picking
pub mod Applying
mod Tests
use sendry.Base.{
  ℕ, Bool, true, false, not, ◌&&◌, ◌||◌, ◌⊎◌, inl, inr, Option, none, some, List, [], ◌∷◌, ◌++◌,
  Text, codes, is_empty, text_eq, to_lower, trim_space, is_space, ◌==◌, if◌then◌else◌,
}

pub data RecordType : Type 0 where
  record_spf record_dkim record_dmarc : RecordType

-- `unset` is the empty text of an entry that is not decided yet.
pub data SyncAction : Type 0 where
  action_noop action_create action_update action_skip unset : SyncAction

pub record PlanEntry : Type 0 where
  pub kind : RecordType
  pub record_type : Text
  pub name : Text
  pub expected : Text
  pub action : SyncAction
  pub reason : Text

-- The fields of models.Domain that are read; `dkim_record` is the DNS record of the linked key.
pub record Domain : Type 0 where
  pub domain_name : Text
  pub dkim_enabled : Bool
  pub dkim_selector : Text
  pub dkim_record : Option Text

abbrev pub undecided : RecordType → Text → Text → PlanEntry
undecided kind name expected = record {
  kind = kind;
  record_type = codes "TXT";
  name = name;
  expected = expected;
  action = unset;
  reason = [];
}

abbrev pub skipped_dkim : PlanEntry
skipped_dkim = record {
  kind = record_dkim;
  record_type = codes "TXT";
  name = [];
  expected = [];
  action = action_skip;
  reason = codes "DKIM is not enabled or DKIM key is not linked";
}

abbrev pub dkim_entry : Domain → Text → PlanEntry
dkim_entry domain d =
    let selector = if is_empty domain.dkim_selector then codes "mail" else domain.dkim_selector in
    elim domain.dkim_record [
      | none ↦ skipped_dkim
      | some key ↦
          if domain.dkim_enabled && not (is_empty (trim_space key))
          then undecided record_dkim (selector ++ (codes "._domainkey." ++ d)) key
          else skipped_dkim
    ]

-- BuildRecommended
pub build_recommended : Domain → Text → List PlanEntry
build_recommended domain spf_include =
    let d = to_lower (trim_space domain.domain_name) in
    let include = trim_space spf_include in
    let spf =
      if is_empty include
      then codes "v=spf1 a mx ~all"
      else codes "v=spf1 a mx include:" ++ (include ++ codes " ~all") in
    undecided record_spf d spf
    ∷ (undecided record_dmarc (codes "_dmarc." ++ d)
          (codes "v=DMARC1; p=quarantine; rua=mailto:dmarc@" ++ d)
        ∷ (dkim_entry domain d ∷ []))

-- strings.TrimPrefix and strings.TrimSuffix for a quotation mark
abbrev pub trim_quote : Text → Text
trim_quote [] = []
trim_quote (c ∷ s) = if c == 34 then s else c ∷ s

unfoldable pub trim_quote_end : Text → Text
trim_quote_end [] = []
trim_quote_end (c ∷ s) = if is_empty s && c == 34 then [] else c ∷ trim_quote_end s

-- strings.Fields: the word that is being read, and the others.
unfoldable pub words : Text → Text × List Text
words [] = ([], [])
words (c ∷ s) =
    let (word, rest) = words s in
    if is_space c then ([], (if is_empty word then rest else word ∷ rest)) else (c ∷ word, rest)

abbrev pub fields : Text → List Text
fields s = let (word, rest) = words s in if is_empty word then rest else word ∷ rest

-- strings.Join with a space
unfoldable pub join : List Text → Text
join [] = []
join (w ∷ []) = w
join (w ∷ (v ∷ ws)) = w ++ (b' ' ∷ join (v ∷ ws))

unfoldable pub normalize_txt : Text → Text
normalize_txt s = join (fields (trim_quote_end (trim_quote (trim_space s))))

unfoldable pub decide_action : Text → Text → SyncAction × Text
decide_action expected current =
    if is_empty current
    then (action_create, codes "no current record found")
    else if text_eq (normalize_txt expected) (normalize_txt current)
    then (action_noop, codes "matches expected value")
    else (action_update, codes "value differs from expected")

pub record DnsRecord : Type 0 where
  pub record_id : Text
  pub content : Text

-- The text up to a space or a semicolon.
unfoldable pub tag_end : Text → Text
tag_end [] = []
tag_end (c ∷ s) = if c == b' ' || c == b';' then [] else c ∷ tag_end s

unfoldable pub record_prefix : Text → Text
record_prefix (c ∷ (d ∷ s)) = if c == b'v' && d == b'=' then to_lower (c ∷ d ∷ tag_end s) else []
record_prefix _ = []

-- The first record that passes a test.
unfoldable pub first_with : (DnsRecord → Bool) → List DnsRecord → Option DnsRecord
first_with p [] = none
first_with p (r ∷ rs) = let rest = first_with p rs in if p r then some r else rest

unfoldable pub is_exact : Text → DnsRecord → Bool
is_exact expected r = text_eq (normalize_txt r.content) (normalize_txt expected)

unfoldable pub is_family : Text → DnsRecord → Bool
is_family expected r =
    text_eq (record_prefix (normalize_txt r.content)) (record_prefix (normalize_txt expected))

-- The second loop of pickMatchingRecord, and its last line.
unfoldable pub pick_family : Text → DnsRecord → List DnsRecord → DnsRecord
pick_family expected r rs =
    if is_empty (record_prefix (normalize_txt expected))
    then r
    else elim (first_with (is_family expected) (r ∷ rs)) [ none ↦ r | some found ↦ found ]

-- pickMatchingRecord
unfoldable pub pick_matching_record : List DnsRecord → Text → DnsRecord
pick_matching_record [] expected = record { record_id = []; content = [] }
pick_matching_record (r ∷ rs) expected = elim (first_with (is_exact expected) (r ∷ rs)) [
  | some found ↦ found
  | none ↦ pick_family expected r rs
]

-- A provider with its records as a state; an error is its text.
pub record Provider : Type 1 where
  pub Zones : Type 0
  pub resolve_zone : Zones → Text → Text ⊎ Text
  pub list_records : Zones → Text → Text → Text → Text ⊎ List DnsRecord
  pub create_record : Zones → Text → Text → Text → Text → Option Text × Zones
  pub update_record : Zones → Text → Text → Text → Text → Text → Option Text × Zones

pub record SyncResult : Type 0 where
  pub entry : PlanEntry
  pub current : Text
  pub decided : SyncAction
  pub why : Text
  pub applied : Bool
  pub error : Text

abbrev pub skipped : PlanEntry → Text → Text → SyncResult
skipped e why error = record {
  entry = e;
  current = [];
  decided = action_skip;
  why = why;
  applied = false;
  error = error;
}

abbrev pub decided_on : PlanEntry → Text → SyncResult
decided_on e current = record {
  entry = e;
  current = current;
  decided = (decide_action e.expected current).0;
  why = (decide_action e.expected current).1;
  applied = false;
  error = [];
}

abbrev pub skips : PlanEntry → Bool
skips e = elim e.action [ action_skip ↦ true | _ ↦ false ]

-- The outcome of a call of the provider.
abbrev pub outcome : SyncResult → Option Text → SyncResult
outcome res none = record res { applied = true }
outcome res (some err) = record res { error = err }

module _ (pr : Provider) where
  open pr use {Zones, resolve_zone, list_records, create_record, update_record}

  -- One turn of the loop of Plan.
  unfoldable pub plan_entry : Zones → PlanEntry → SyncResult
  plan_entry z e = if skips e then skipped e e.reason [] else elim (resolve_zone z e.name) [
    | inl err ↦ skipped e (codes "zone lookup failed: " ++ err) []
    | inr zone ↦ elim (list_records z zone e.name e.record_type) [
      | inl err ↦ skipped e (codes "list records failed: " ++ err) []
      | inr records ↦ decided_on e (pick_matching_record records e.expected).content
    ]
  ]

  -- The calls that a decision leads to.
  unfoldable pub carry_out : Zones → Text → PlanEntry → DnsRecord → SyncResult × Zones
  carry_out z zone e found =
      let res = decided_on e found.content in
      elim res.decided [
        | action_create ↦
            let (err, z') = create_record z zone e.record_type e.name e.expected in
            (outcome res err, z')
        | action_update ↦
            let (err, z') = update_record z zone found.record_id e.record_type e.name e.expected in
            (outcome res err, z')
        | _ ↦ (res, z)
      ]

  -- One turn of the loop of Apply.
  unfoldable pub apply_entry : Zones → PlanEntry → SyncResult × Zones
  apply_entry z e = if skips e then (skipped e e.reason [], z) else elim (resolve_zone z e.name) [
    | inl err ↦ (skipped e (codes "zone lookup failed: " ++ err) err, z)
    | inr zone ↦ elim (list_records z zone e.name e.record_type) [
      | inl err ↦ (skipped e (codes "list records failed: " ++ err) err, z)
      | inr records ↦ carry_out z zone e (pick_matching_record records e.expected)
    ]
  ]

  -- The method Plan, which makes no changes.
  pub plan : Zones → List PlanEntry → List SyncResult
  plan z [] = []
  plan z (e ∷ es) = plan_entry z e ∷ plan z es

  -- Apply
  pub apply_all : Zones → List PlanEntry → List SyncResult × Zones
  apply_all z [] = ([], z)
  apply_all z (e ∷ es) =
      let (res, z') = apply_entry z e in let (rest, z'') = apply_all z' es in (res ∷ rest, z'')
