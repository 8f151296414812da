-- ===== src/Email/Domains.antt =====
-- The two ways in which the program finds the domain of an address.
use sendry.Base.{
  Without, split_first-append, split_first-none, ℕ, ◌≡◌, refl, ◌⊎◌, false, Option, none, some, [],
  ◌∷◌, ◌++◌, Text, is_empty, to_lower, split_last, arith,
}
use sendry.Email.{after_at, dns_extract_domain, extract_domain}

split_last-none : (c : ℕ) (s : Text) → Without c s → split_last c s ≡ none
unfolding split_last
split_last-none c [] w = refl
split_last-none c (x ∷ s) w = ground (arith, split_last-none c s w.1, w.0)

split_last-append : (c : ℕ) (s t : Text) → Without c t → split_last c (s ++ (c ∷ t)) ≡ some (s, t)
unfolding split_last
split_last-append c [] t w = ground (arith, split_last-none c t w)
split_last-append c (x ∷ s) t w = ground (arith, split_last-append c s t w)

-- On an address with one '@' and text on both sides, which net/mail takes as it is or refuses,
-- the limiter of the queue and the client that delivers see the same domain: the text after the
-- '@', in lower case.
extract_domain-eq-dns :
    (parse : Text → Option Text) (user host : Text)
    → let s = user ++ (b'@' ∷ host) in
      (parse s ≡ none) ⊎ (parse s ≡ some s)
      → is_empty user ≡ false
      → is_empty host ≡ false
      → Without b'@' user
      → Without b'@' host
      → (extract_domain parse s ≡ to_lower host) × (dns_extract_domain s ≡ to_lower host)
unfolding extract_domain after_at dns_extract_domain
extract_domain-eq-dns parse user host p u h wu wh = ground (
  arith,
  split_last-append b'@' user host wh,
  split_first-append b'@' user host wu,
  split_first-none b'@' host wh,
)
