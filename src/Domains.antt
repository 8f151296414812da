-- ===== src/Domains.antt =====
-- internal/domain/manager.go: the DKIM signers of the domains and the settings of a domain. Reading a
-- key from its file is a parameter, and an error is its text. The map of the settings is run through in
-- the order of the list.
mod Parents
mod Tests
use sendry.Base.{
  Bool, true, false, ◌&&◌, not, ◌||◌, Option, none, some, List, [], ◌∷◌, ◌++◌, Text, codes,
  is_empty, split_all, if◌then◌else◌, Dict, lookup, insert, remove, has_key, ◌⊎◌, inl, inr,
}
use sendry.Email.{extract_domain}

pub record DkimSettings : Type 0 where
  pub enabled : Bool
  pub selector : Text
  pub key_file : Text

-- `dkim` is a pointer.
pub record DomainSettings : Type 0 where
  pub dkim : Option DkimSettings
  pub mode : Text
  pub redirect_to : List Text
  pub bcc_to : List Text

pub record ManagerConfig : Type 0 where
  pub legacy : DkimSettings
  pub legacy_domain : Text
  pub domains : Dict DomainSettings

-- strings.Join(parts, ".")
unfoldable pub join_dots : List Text → Text
join_dots [] = []
join_dots (p ∷ ps) = elim ps [ [] ↦ p | _ ∷ _ ↦ p ++ (b'.' ∷ join_dots ps) ]

abbrev pub without_first : List Text → List Text
without_first [] = []
without_first (p ∷ ps) = ps

module _ {Signer : Type 0} where
  -- The signer of the domain that the parts make, or else without the first of them, and so on.
  unfoldable pub parent_signer : Dict Signer → List Text → Option Signer
  parent_signer m [] = none
  parent_signer m (p ∷ ps) =
      let further = parent_signer m ps in
      elim (lookup (join_dots (p ∷ ps)) m) [ some s ↦ some s | none ↦ further ]

  unfoldable pub get_signer : Dict Signer → Text → Option Signer
  get_signer m domain = elim (lookup domain m) [
    | some s ↦ some s
    | none ↦ parent_signer m (without_first (split_all b'.' domain))
  ]

  unfoldable pub get_signer_for_email : (Text → Option Text) → Dict Signer → Text → Option Signer
  get_signer_for_email parse m addr =
      let domain = extract_domain parse addr in
      if is_empty domain then none else get_signer m domain

  unfoldable pub has_dkim : Dict Signer → Bool
  has_dkim m = not (is_empty m)

-- `dc.DKIM != nil && dc.DKIM.Enabled`
unfoldable pub enabled_dkim : DomainSettings → Option DkimSettings
enabled_dkim dc = elim dc.dkim [ none ↦ none | some d ↦ if d.enabled then some d else none ]

module _ {Signer : Type 0} (signer_from_file : Text → Text → Text → Text ⊎ Signer) where
  unfoldable pub load_domains : Dict DomainSettings → Dict Signer → Text ⊎ Dict Signer
  load_domains [] m = inr m
  load_domains ((domain, dc) ∷ rest) m =
      let skipped = load_domains rest m in
      elim (enabled_dkim dc) [
        | none ↦ skipped
        | some d ↦ elim (lookup domain m) [
          | some s ↦ skipped
          | none ↦ elim (signer_from_file d.key_file domain d.selector) [
            | inl err ↦ inl (codes "failed to load DKIM signer for " ++ domain ++ codes ": " ++ err)
            | inr s ↦ load_domains rest (insert domain s m)
          ]
        ]
      ]

  unfoldable pub load_signers : ManagerConfig → Text ⊎ Dict Signer
  load_signers cfg =
      if cfg.legacy.enabled
      then elim (signer_from_file cfg.legacy.key_file cfg.legacy_domain cfg.legacy.selector) [
        | inl err ↦ inl (
            codes "failed to load legacy DKIM signer for "
            ++ cfg.legacy_domain
            ++ codes ": "
            ++ err)
        | inr s ↦ load_domains cfg.domains (insert cfg.legacy_domain s [])
      ]
      else load_domains cfg.domains []

  -- With an error the signers stay as they are.
  unfoldable pub reload_signer : ManagerConfig → Text → Dict Signer → Option Text × Dict Signer
  reload_signer cfg domain m = elim (lookup domain cfg.domains) [
    | none ↦ (none, remove domain m)
    | some dc ↦ elim (enabled_dkim dc) [
      | none ↦ (none, remove domain m)
      | some d ↦
          if is_empty d.key_file
          then (none, remove domain m)
          else elim (signer_from_file d.key_file domain d.selector) [
            | inl err ↦
                (some (codes "failed to load DKIM signer for " ++ domain ++ codes ": " ++ err), m)
            | inr s ↦ (none, insert domain s m)
          ]
    ]
  ]

unfoldable pub domain_mode : ManagerConfig → Text → Text
domain_mode cfg domain = elim (lookup domain cfg.domains) [
  | none ↦ codes "production"
  | some dc ↦ if is_empty dc.mode then codes "production" else dc.mode
]

unfoldable pub redirect_addresses : ManagerConfig → Text → List Text
redirect_addresses cfg domain = elim (lookup domain cfg.domains) [
  | none ↦ []
  | some dc ↦ dc.redirect_to
]

unfoldable pub bcc_addresses : ManagerConfig → Text → List Text
bcc_addresses cfg domain = elim (lookup domain cfg.domains) [ none ↦ [] | some dc ↦ dc.bcc_to ]
