-- ===== src/Domains/Parents.antt =====
-- The signer of a domain or of the nearest domain above it: GetSigner of internal/domain/manager.go.
use sendry.Base.{
  ℕ, ◌≡◌, refl, sym, ap, ◌∙◌, Option, none, some, List, [], ◌∷◌, Text, split_all, ◌==◌,
  if◌then◌else◌, Dict, lookup, arith, Bool-cases, inl, inr,
}
use sendry.Domains.{join_dots, parent_signer, without_first, get_signer}

-- What stands after each `.` of a text, the longest first.
unfoldable pub domains_above : Text → List Text
domains_above [] = []
domains_above (c ∷ s) = let further = domains_above s in if c == b'.' then s ∷ further else further

unfoldable pub first_signer : {Signer : Type 0} → Dict Signer → List Text → Option Signer
first_signer m [] = none
first_signer m (d ∷ ds) =
    let further = first_signer m ds in elim (lookup d m) [ some s ↦ some s | none ↦ further ]

split_all-nonempty : (c : ℕ) (s : Text) → split_all c s ≡ [] → ⊥
unfolding split_all
split_all-nonempty c [] e = cc e
split_all-nonempty c (x ∷ s) e = go (split_all c s) refl (split_all-nonempty c s)
  where
    go : (l : List Text) → split_all c s ≡ l → (split_all c s ≡ [] → ⊥) → ⊥
    go [] q ih = ih q
    go (p ∷ ps) q ih = ground (arith, e, q)

join_dots-longer :
    (x : ℕ) (p : Text) (ps : List Text) → join_dots ((x ∷ p) ∷ ps) ≡ x ∷ join_dots (p ∷ ps)
unfolding join_dots
join_dots-longer x p [] = refl
join_dots-longer x p (q ∷ qs) = refl

module _ {Signer : Type 0} (m : Dict Signer) where
  split_all-above :
      (s : Text)
      → (join_dots (split_all b'.' s) ≡ s)
        × (parent_signer m (without_first (split_all b'.' s)) ≡ first_signer m (domains_above s))
  unfolding split_all join_dots parent_signer first_signer domains_above
  split_all-above [] = (refl, refl)
  split_all-above (x ∷ s) = go (split_all b'.' s) refl (split_all-above s)
    where
      go :
          (l : List Text)
          → split_all b'.' s ≡ l
          → (join_dots (split_all b'.' s) ≡ s)
            × (parent_signer m (without_first (split_all b'.' s))
                ≡ first_signer m (domains_above s))
          → (join_dots (split_all b'.' (x ∷ s)) ≡ x ∷ s)
            × (parent_signer m (without_first (split_all b'.' (x ∷ s)))
                ≡ first_signer m (domains_above (x ∷ s)))
      go [] q h = absurd (split_all-nonempty b'.' s q)
      go (p ∷ ps) q h =
          let j : join_dots (p ∷ ps) ≡ s = ap join_dots (sym q) ∙ h.0 in
          let r : parent_signer m ps ≡ first_signer m (domains_above s) =
            ap (λ l. parent_signer m (without_first l)) (sym q) ∙ h.1 in
          elim (Bool-cases (x == b'.')) [
            | inl y ↦
                rw (split_all, q, y)
                  (
                    ground (arith, j, y),
                    ap
                          (λ t. elim (lookup t m) as (λ _. Option Signer) [
                            | some g ↦ some g
                            | none ↦ parent_signer m ps
                          ])
                          j
                        ∙ ap
                            (λ z. elim (lookup s m) as (λ _. Option Signer) [
                              | some g ↦ some g
                              | none ↦ z
                            ])
                            r,
                  )
            | inr y ↦ rw (split_all, q, y) (join_dots-longer x p ps ∙ ap (λ t. x ∷ t) j, r)
          ]

  -- GetSigner, which joins the parts of the domain again and again, gives the signer of the domain
  -- itself, or else that of the nearest domain above it that has one.
  pub get_signer-Nearest :
      (domain : Text) → get_signer m domain ≡ first_signer m (domain ∷ domains_above domain)
  unfolding get_signer first_signer
  get_signer-Nearest domain =
      ap (λ z. elim (lookup domain m) as (λ _. Option Signer) [ some g ↦ some g | none ↦ z ])
        (split_all-above domain).1
