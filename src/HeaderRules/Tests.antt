-- ===== src/HeaderRules/Tests.antt =====
-- The properties of the rules at concrete inputs.
use sendry.Base.{◌≡◌, refl, [], ◌∷◌, codes, is_space, trim_left, trim_right, arith}
use sendry.HeaderRules.{
  Header, Rule, action_replace, apply_each, apply_rule, apply_rules, build_email,
}
use sendry.HeaderRules.Lines.{IsPlain}
use sendry.HeaderRules.Mails.{apply_rules-build}
use sendry.HeaderRules.Values.{values, ruled, apply_rule-values}

abbrev subject : Header
subject = record { name = codes "S"; content = codes "x" }

abbrev rule : Rule
rule = record { action = action_replace; headers = []; header = codes "s"; value = codes "z" }

subject-IsPlain : IsPlain subject
unfolding is_space trim_left trim_right
subject-IsPlain = record {
  named = refl;
  name_left = refl;
  name_right = refl;
  no_colon = ((λ q. absurd (omega arith)), tt);
  name_line = ((λ q. absurd (omega arith)), tt);
  content_left = refl;
  content_right = refl;
  content_line = ((λ q. absurd (omega arith)), tt);
}

apply_rules-build_example :
    apply_rules (build_email (subject ∷ []) (codes "Hi")) (rule ∷ [])
    ≡ build_email (apply_each (subject ∷ []) (rule ∷ [])) (codes "Hi")
apply_rules-build_example =
    apply_rules-build subject [] (codes "Hi") (rule ∷ []) (subject-IsPlain, tt)

apply_rule-values_example :
    values (codes "S") (apply_rule (subject ∷ subject ∷ []) rule)
    ≡ ruled rule (codes "S") (values (codes "S") (subject ∷ subject ∷ []))
apply_rule-values_example = apply_rule-values rule (subject ∷ subject ∷ []) (codes "S")
