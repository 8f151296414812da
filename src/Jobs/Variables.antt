-- ===== src/Jobs/Variables.antt =====
-- Which value a variable of a template has: internal/web/worker/worker.go.
use sendry.Base.{
  ◌≡◌, refl, ◌&&◌, ◌||◌, not, Option, none, some, [], ◌∷◌, Text, codes, text_eq, is_empty,
  if◌then◌else◌, Dict, lookup, insert, lookup-insert, arith, Bool-cases, inl, inr,
}
use sendry.Jobs.{Recipient}
use sendry.Jobs.Mails.{
  Outside, copy_into, as_values, recipient_values, merge_variables, item_variables, email_of,
  name_of, variables_of,
}

-- The first of the two that there is.
abbrev pub or_else {ℓ} : {A : Type ℓ} → Option A → Option A → Option A
or_else none b = b
or_else (some a) b = some a

abbrev pub mapped {ℓ κ} : {A : Type ℓ} {B : Type κ} → (A → B) → Option A → Option B
mapped f none = none
mapped f (some a) = some (f a)

or_else-none {ℓ} : {A : Type ℓ} (o : Option A) → or_else o none ≡ o
or_else-none none = refl
or_else-none (some a) = refl

-- One value under two keys.
lookup-insert_both {ℓ} :
    {V : Type ℓ} (k a b : Text) (v : V) (m : Dict V)
    → lookup k (insert b v (insert a v m))
      ≡ (if text_eq a k || text_eq b k then some v else lookup k m)
lookup-insert_both k a b v m =
    ground (arith, lookup-insert b k v (insert a v m), lookup-insert a k v m)

lookup-copy_into {ℓ} :
    {V : Type ℓ} (k : Text) (m r : Dict V)
    → lookup k (copy_into m r) ≡ or_else (lookup k m) (lookup k r)
unfolding copy_into lookup
lookup-copy_into k [] r = refl
lookup-copy_into k ((j, v) ∷ m) r =
    ground (arith, lookup-insert j k v (copy_into m r), lookup-copy_into k m r)

lookup-as_values {ℓ} :
    {V : Type ℓ} (str : Text → V) (k : Text) (m : Dict Text)
    → lookup k (as_values str m) ≡ mapped str (lookup k m)
unfolding as_values lookup
lookup-as_values str k [] = refl
lookup-as_values str k ((j, v) ∷ m) = ground (arith, lookup-as_values str k m)

module _ (sv : Outside) where
  open sv use {Value, str}

  lookup-merge_variables :
      (k : Text) (global campaign : Dict Text) (json : Text)
      → lookup k (merge_variables sv global campaign json)
        ≡ or_else
            (lookup k (recipient_values sv json))
            (or_else (mapped str (lookup k campaign)) (mapped str (lookup k global)))
  unfolding merge_variables lookup
  lookup-merge_variables k global campaign json =
      rw
        (
          lookup-copy_into k (recipient_values sv json)
              (copy_into (as_values str campaign) (copy_into (as_values str global) [])),
          lookup-copy_into k (as_values str campaign) (copy_into (as_values str global) []),
          lookup-copy_into k (as_values str global) [],
          lookup-as_values str k campaign,
          lookup-as_values str k global,
          or_else-none (mapped str (lookup k global)),
        )
        refl

  -- `name` and `recipient_name` are the recipient's name if there is one, and `email` and
  -- `recipient_email` the address, whatever the recipient's own variables say. For every other key the
  -- recipient's variables come first, then those of the campaign, then the global ones.
  pub lookup-item_variables :
      (k : Text) (global campaign : Dict Text) (r : Option Recipient)
      → lookup k (item_variables sv global campaign r) ≡ (
          if not (is_empty (name_of r))
            && (text_eq (codes "name") k || text_eq (codes "recipient_name") k)
          then some (str (name_of r))
          else if text_eq (codes "email") k || text_eq (codes "recipient_email") k
          then some (str (email_of r))
          else or_else
              (lookup k (recipient_values sv (variables_of r)))
              (or_else (mapped str (lookup k campaign)) (mapped str (lookup k global))))
  unfolding item_variables
  lookup-item_variables k global campaign r =
      let merged = merge_variables sv global campaign (variables_of r) in
      let email = str (email_of r) in
      let vars = insert (codes "recipient_email") email (insert (codes "email") email merged) in
      let names =
        lookup-insert_both k (codes "name") (codes "recipient_name") (str (name_of r)) vars in
      let emails = lookup-insert_both k (codes "email") (codes "recipient_email") email merged in
      let rest = lookup-merge_variables k global campaign (variables_of r) in
      elim (Bool-cases (is_empty (name_of r))) [
        | inl e ↦ rw (item_variables, e, emails, rest) refl
        | inr e ↦ rw (item_variables, e, names, emails, rest) refl
      ]
