-- ===== src/Email.antt =====
-- internal/email/email.go and `ExtractDomain` of internal/dns/resolver.go. `net/mail.ParseAddress`
-- is a parameter: `parse` gives the bare address, or `none` for an error.
mod Domains
use sendry.Base.{
  ℕ, Bool, Option, none, some, List, [], ◌∷◌, Text, is_empty, to_lower, split_last, split_first,
  if◌then◌else◌, ◌||◌,
}

-- The lower-cased text after the last '@', if there is text on both of its sides.
unfoldable pub after_at : Text → Text
after_at s = elim (split_last b'@' s) [
  | none ↦ []
  | some (user, host) ↦ if is_empty user || is_empty host then [] else to_lower host
]

-- email.ExtractDomain
unfoldable pub extract_domain : (Text → Option Text) → Text → Text
extract_domain parse s = elim (parse s) [ none ↦ after_at s | some address ↦ after_at address ]

-- email.ExtractDomainOrDefault
pub extract_domain_or_default : (Text → Option Text) → Text → Text → Text
extract_domain_or_default parse s default =
    let d = extract_domain parse s in if is_empty d then default else d

-- dns.ExtractDomain: exactly one '@'.
unfoldable pub dns_extract_domain : Text → Text
dns_extract_domain s = elim (split_first b'@' s) [
  | none ↦ []
  | some (user, host) ↦ elim (split_first b'@' host) [ none ↦ to_lower host | some _ ↦ [] ]
]
