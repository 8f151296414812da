-- ===== src/IpFilter/Entries.antt =====
-- Which addresses the filter of internal/ipfilter/ipfilter.go lets through.
use sendry.Base.{
  ◌≡◌, refl, ◌↔◌, ◌⊎◌, inl, inr, Bool-cases, true, false, ◌||◌, some, Option-cases, List, [], ◌∷◌,
  ◌++◌, Text, codes, is_empty, any, contains, trim_space, arith,
}
use sendry.IpFilter.{NetApi, entry_nets, new_filter, is_allowed, enabled}

module _ (api : NetApi) where
  open api use {Ip, Net, parse_ip, parse_cidr, net_contains}

  -- An entry that names an address: a network that holds it, or the address itself.
  abbrev pub Names : Ip → Text → Type 0
  Names i s =
      let t = trim_space s in
      (is_empty t ≡ false)
      × (((contains (codes "/") t ≡ true)
            × (n : Net) × (parse_cidr t ≡ some n)
            × (net_contains n i ≡ true))
          ⊎ ((contains (codes "/") t ≡ false) × (parse_ip t ≡ some i)))

  abbrev pub Listed : Ip → List Text → Type 0
  Listed i [] = ⊥
  Listed i (s ∷ entries) = Names i s ⊎ Listed i entries

  any-append :
      (i : Ip) (xs ys : List Net)
      → any (λ n. net_contains n i) (xs ++ ys)
        ≡ (any (λ n. net_contains n i) xs || any (λ n. net_contains n i) ys)
  unfolding any
  any-append i [] ys = refl
  any-append i (x ∷ xs) ys = ground (arith, any-append i xs ys)

  entry-Names :
      (i : Ip) (s : Text) → (any (λ n. net_contains n i) (entry_nets api s) ≡ true) ↔ Names i s
  unfolding entry_nets any
  entry-Names i s = elim (Bool-cases (is_empty (trim_space s))) [
    | inl e ↦ ground (arith, e)
    | inr e ↦ elim (Bool-cases (contains (codes "/") (trim_space s))) [
      | inl c ↦ elim (Option-cases (parse_cidr (trim_space s))) [
        | inl p ↦ ground (arith, e, c, p)
        | inr (n, p) ↦ ground (arith, e, c, p)
      ]
      | inr c ↦ elim (Option-cases (parse_ip (trim_space s))) [
        | inl p ↦ ground (arith, e, c, p)
        | inr (j, p) ↦ ground (arith, e, c, p, api.single-contains j i)
      ]
    ]
  ]

  any-Listed :
      (i : Ip) (entries : List Text)
      → (any (λ n. net_contains n i) (new_filter api entries) ≡ true) ↔ Listed i entries
  unfolding new_filter any
  any-Listed i [] = ground arith
  any-Listed i (s ∷ entries) = ground (
    arith,
    any-append i (entry_nets api s) (new_filter api entries),
    entry-Names i s,
    any-Listed i entries,
  )

  -- The filter made of a list of entries lets an address through exactly if some entry names it, as
  -- itself or by a network that holds it, or if no entry is valid, which leaves the filter off.
  pub new_filter-Listed :
      (entries : List Text) (i : Ip)
      → (is_allowed api (new_filter api entries) i ≡ true)
        ↔ ((enabled api (new_filter api entries) ≡ false) ⊎ Listed i entries)
  unfolding is_allowed any
  new_filter-Listed entries i = elim (Bool-cases (is_empty (new_filter api entries))) [
    | inl e ↦ ground (arith, e)
    | inr e ↦ ground (arith, e, any-Listed i entries)
  ]
