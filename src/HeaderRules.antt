-- ===== src/HeaderRules.antt =====
-- internal/headers/rules.go and internal/headers/processor.go: the rules that remove, replace and
-- add headers of a mail. White space and letter case are those of ASCII.
mod Lines
pub mod Mails
pub mod Values
mod Tests
use sendry.Base.{
  ℕ, Bool, true, false, not, ◌&&◌, ◌||◌, Option, none, some, List, [], ◌∷◌, ◌++◌, Text, Dict, codes,
  is_empty, text_eq, any, select, lookup, to_lower, split_first, split_text, split_all, trim_space,
  ◌==◌, if◌then◌else◌,
}

-- `other_action` is any other text.
pub data Action : Type 0 where
  action_remove action_replace action_add other_action : Action

pub record Rule : Type 0 where
  pub action : Action
  pub headers : List Text
  pub header : Text
  pub value : Text

pub record RulesConfig : Type 0 where
  pub global_rules : List Rule
  pub domain_rules : Dict (List Rule)

pub record Header : Type 0 where
  pub name : Text
  pub content : Text

-- GetRulesForDomain; a nil configuration is `none`.
unfoldable pub get_rules_for_domain : Option RulesConfig → Text → List Rule
get_rules_for_domain none domain = []
get_rules_for_domain (some cfg) domain = elim (lookup domain cfg.domain_rules) [
  | none ↦ cfg.global_rules
  | some rules ↦ cfg.global_rules ++ rules
]

-- HasRules
unfoldable pub has_rules : Option RulesConfig → Bool
has_rules none = false
has_rules (some cfg) =
    not (is_empty cfg.global_rules) || any (λ p. not (is_empty p.1)) cfg.domain_rules

unfoldable pub split_headers_body : Text → Text × Text
split_headers_body s = elim (split_text (13 ∷ 10 ∷ 13 ∷ 10 ∷ []) s) [
  | some found ↦ found
  | none ↦ elim (split_text (10 ∷ 10 ∷ []) s) [ some found ↦ found | none ↦ (s, []) ]
]

-- bytes.TrimSuffix(line, "\r")
unfoldable pub trim_cr : Text → Text
trim_cr [] = []
trim_cr (c ∷ s) = if is_empty s && c == 13 then [] else c ∷ trim_cr s

-- The last header is the current one: a continuation line goes to its value.
unfoldable pub continue_last : List Header → Text → List Header
continue_last [] line = []
continue_last (h ∷ []) line = record h { content = h.content ++ (13 ∷ 10 ∷ line) } ∷ []
continue_last (h ∷ (i ∷ hs)) line = h ∷ continue_last (i ∷ hs) line

abbrev pub is_continuation : Text → Bool
is_continuation [] = false
is_continuation (c ∷ line) = c == b' ' || c == 9

-- One turn of the loop of parseHeaders, on a line without its CR.
unfoldable pub parse_line : List Header → Text → List Header
parse_line hs line =
    if is_empty line
    then hs
    else if is_continuation line
    then continue_last hs line
    else elim (split_first b':' line) [
      | none ↦ hs
      | some (name, rest) ↦
          if is_empty name
          then hs
          else hs ++ (record { name = trim_space name; content = trim_space rest } ∷ [])
    ]

unfoldable pub parse_loop : List Header → List Text → List Header
parse_loop hs [] = hs
parse_loop hs (line ∷ lines) = parse_loop (parse_line hs (trim_cr line)) lines

-- parseHeaders
unfoldable pub parse_headers : Text → List Header
unfolding parse_loop
parse_headers s = parse_loop [] (split_all 10 s)

abbrev pub same_name : Text → Text → Bool
same_name a b = text_eq (to_lower a) (to_lower b)

unfoldable pub remove_headers : List Header → List Text → List Header
remove_headers hs names =
    if is_empty names then hs else select (λ h. not (any (λ n. same_name n h.name) names)) hs

unfoldable pub replace_first : List Header → Text → Text → Option (List Header)
replace_first [] name content = none
replace_first (h ∷ hs) name content =
    let rest = replace_first hs name content in
    if same_name h.name name
    then some (record h { content = content } ∷ hs)
    else elim rest [ none ↦ none | some hs' ↦ some (h ∷ hs') ]

unfoldable pub replace_header : List Header → Text → Text → List Header
unfolding replace_first
replace_header hs name content =
    if is_empty name then hs else elim (replace_first hs name content) [
      | some hs' ↦ hs'
      | none ↦ hs ++ (record { name = name; content = content } ∷ [])
    ]

unfoldable pub add_header : List Header → Text → Text → List Header
add_header hs name content =
    if is_empty name then hs else hs ++ (record { name = name; content = content } ∷ [])

unfoldable pub apply_rule : List Header → Rule → List Header
apply_rule hs rule = elim rule.action [
  | action_remove ↦ remove_headers hs rule.headers
  | action_replace ↦ replace_header hs rule.header rule.value
  | action_add ↦ add_header hs rule.header rule.value
  | other_action ↦ hs
]

-- The loop over the rules.
unfoldable pub apply_each : List Header → List Rule → List Header
apply_each hs [] = hs
apply_each hs (rule ∷ rules) = apply_each (apply_rule hs rule) rules

unfoldable pub build_headers : List Header → Text
build_headers [] = []
build_headers (h ∷ hs) = h.name ++ (b':' ∷ b' ' ∷ (h.content ++ (13 ∷ 10 ∷ build_headers hs)))

-- buildEmail
unfoldable pub build_email : List Header → Text → Text
build_email hs body = build_headers hs ++ (13 ∷ 10 ∷ body)

unfoldable pub apply_rules : Text → List Rule → Text
apply_rules bytes rules =
    let (headers, body) = split_headers_body bytes in
    build_email (apply_each (parse_headers headers) rules) body

-- Process
unfoldable pub process : Option RulesConfig → Text → Text → Text
process cfg bytes domain =
    let rules = get_rules_for_domain cfg domain in
    if has_rules cfg then (if is_empty rules then bytes else apply_rules bytes rules) else bytes
