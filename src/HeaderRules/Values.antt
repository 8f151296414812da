-- ===== src/HeaderRules/Values.antt =====
-- What a rule of internal/headers/processor.go does to the values of a name.
use sendry.Base.{
  ◌≡◌, ◌↔◌, refl, ◌∙◌, Bool-cases, true, false, not, ◌&&◌, inl, inr, Option, none, some,
  Option-cases, List, [], ◌∷◌, ◌++◌, Text, text_eq_iff, to_lower, is_empty, any, select, drop,
  if◌then◌else◌, arith,
}
use mathlib.Core.List.{append-nil}
use sendry.HeaderRules.{
  Header, Rule, Action, action_remove, action_replace, action_add, other_action, same_name,
  remove_headers, replace_first, replace_header, add_header, apply_rule,
}

-- The values of the headers with a name, in their order.
unfoldable pub values : Text → List Header → List Text
values j [] = []
values j (h ∷ hs) = let rest = values j hs in if same_name h.name j then h.content ∷ rest else rest

-- What should become of the values of a name.
abbrev pub ruled : Rule → Text → List Text → List Text
ruled rule j vs = elim rule.action [
  | action_remove ↦ if any (λ n. same_name n j) rule.headers then [] else vs
  | action_replace ↦
      if not (is_empty rule.header) && same_name rule.header j then rule.value ∷ drop 1 vs else vs
  | action_add ↦
      if not (is_empty rule.header) && same_name rule.header j then vs ++ (rule.value ∷ []) else vs
  | other_action ↦ vs
]

values-append : (j : Text) (hs is : List Header) → values j (hs ++ is) ≡ values j hs ++ values j is
unfolding values
values-append j [] is = refl
values-append j (h ∷ hs) is = ground (arith, values-append j hs is)

any-same :
    (a b : Text) (names : List Text)
    → same_name a b ≡ true
    → any (λ n. same_name n a) names ≡ any (λ n. same_name n b) names
unfolding any
any-same a b [] h = refl
any-same a b (n ∷ names) h =
    ground (arith, any-same a b names h, text_eq_iff (to_lower a) (to_lower b))

values-select :
    (j : Text) (names : List Text) (hs : List Header)
    → values j (select (λ h. not (any (λ n. same_name n h.name) names)) hs)
      ≡ (if any (λ n. same_name n j) names then [] else values j hs)
unfolding values select
values-select j names [] = ground arith
values-select j names (h ∷ hs) = ground (arith, values-select j names hs, any-same h.name j names)

values-remove :
    (j : Text) (names : List Text) (hs : List Header)
    → values j (remove_headers hs names)
      ≡ (if any (λ n. same_name n j) names then [] else values j hs)
unfolding remove_headers any
values-remove j [] hs = refl
values-remove j (n ∷ names) hs = values-select j (n ∷ names) hs

abbrev Replaced : Text → Text → Text → List Header → Option (List Header) → Type 0
Replaced j name content hs none = same_name name j ≡ true → values j hs ≡ []
Replaced j name content hs (some hs') =
    values j hs' ≡ (if same_name name j then content ∷ drop 1 (values j hs) else values j hs)

replace_first-Replaced :
    (j name content : Text) (hs : List Header)
    → Replaced j name content hs (replace_first hs name content)
unfolding replace_first values
replace_first-Replaced j name content [] = λ q. refl
replace_first-Replaced j name content (h ∷ hs) =
    let names = text_eq_iff (to_lower h.name) (to_lower name) in
    let other = text_eq_iff (to_lower h.name) (to_lower j) in
    let wanted = text_eq_iff (to_lower name) (to_lower j) in
    elim (Bool-cases (same_name h.name name)) [
      | inl same ↦ rw same (ground (arith, same, names, other, wanted))
      | inr differ ↦ rw differ (
          go (replace_first hs name content) (replace_first-Replaced j name content hs) names other
            wanted differ)
    ]
  where
    go :
        (r : Option (List Header))
        → Replaced j name content hs r
        → (same_name h.name name ≡ true) ↔ (to_lower h.name ≡ to_lower name)
        → (same_name h.name j ≡ true) ↔ (to_lower h.name ≡ to_lower j)
        → (same_name name j ≡ true) ↔ (to_lower name ≡ to_lower j)
        → same_name h.name name ≡ false
        → Replaced j name content (h ∷ hs) (elim r [ none ↦ none | some hs' ↦ some (h ∷ hs') ])
    go none p names other wanted differ = λ q. ground (arith, p)
    go (some hs') p names other wanted differ = ground (arith, p)

values-replace :
    (j name content : Text) (hs : List Header)
    → values j (replace_header hs name content) ≡ (
        if not (is_empty name) && same_name name j
        then content ∷ drop 1 (values j hs)
        else values j hs)
unfolding replace_header values
values-replace j [] content hs = refl
values-replace j (c ∷ name) content hs =
    let r = replace_first-Replaced j (c ∷ name) content hs in
    elim (Option-cases (replace_first hs (c ∷ name) content)) [
      | inl e ↦
          let missing : same_name (c ∷ name) j ≡ true → values j hs ≡ [] = rw e at r in
          let append = values-append j hs (record { name = c ∷ name; content = content } ∷ []) in
          elim (Bool-cases (same_name (c ∷ name) j)) [
            | inl same ↦
                rw (e, replace_header, same, missing same)
                  (ground (arith, append, same, missing same))
            | inr differ ↦
                rw (e, replace_header, differ) (rw differ at append ∙ append-nil (values j hs))
          ]
      | inr (hs', e) ↦ ground (arith, e, rw e at r)
    ]

values-add :
    (j name content : Text) (hs : List Header)
    → values j (add_header hs name content) ≡ (
        if not (is_empty name) && same_name name j
        then values j hs ++ (content ∷ [])
        else values j hs)
unfolding add_header values
values-add j [] content hs = refl
values-add j (c ∷ name) content hs =
    let append = values-append j hs (record { name = c ∷ name; content = content } ∷ []) in
    elim (Bool-cases (same_name (c ∷ name) j)) [
      | inl same ↦ rw same (rw same at append)
      | inr differ ↦ rw differ (rw differ at append ∙ append-nil (values j hs))
    ]

-- After a rule, the values of any name are those that the action gives: none for a name that it
-- removes; for the name that it replaces the new value in place of the first one, or as the only
-- one if there was none; for the name that it adds the old ones and then the new one; and for every
-- other name, and a rule with an empty name, the old ones in their order. Names are compared
-- without their case.
pub apply_rule-values :
    (rule : Rule) (hs : List Header) (j : Text)
    → values j (apply_rule hs rule) ≡ ruled rule j (values j hs)
unfolding apply_rule
apply_rule-values rule hs j = go rule.action refl
  where
    go : (a : Action) → rule.action ≡ a → values j (apply_rule hs rule) ≡ ruled rule j (values j hs)
    go action_remove e = rw (e, apply_rule) (values-remove j rule.headers hs)
    go action_replace e = rw (e, apply_rule) (values-replace j rule.header rule.value hs)
    go action_add e = rw (e, apply_rule) (values-add j rule.header rule.value hs)
    go other_action e = rw (e, apply_rule) refl
