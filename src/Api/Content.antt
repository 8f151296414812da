-- ===== src/Api/Content.antt =====
-- What is sent: buildSendRequest, resolveTemplate, extractDomain and rewriteAssetURLs of
-- internal/web/router/router.go. The template engine is a parameter.
use sendry.Base.{
  ℕ, zero, suc, ◌-◌, Bool, true, false, ◌&&◌, ◌||◌, not, Option, none, some, List, [], ◌∷◌, ◌++◌,
  Text, codes, text_eq, is_empty, to_lower, split_all, split_first, has_prefix, length, ◌==◌,
  if◌then◌else◌, Dict, insert, find, ◌⊎◌, inl, inr,
}
use sendry.Api.{ApiSendRequest, MailRequest, MailTemplate}

pub data RouterError : Type 0 where
  invalid_request : Text → RouterError
  domain_not_found : RouterError
  no_servers : RouterError
  all_servers_failed : RouterError
  template_not_found : RouterError
  render_failed : Text → RouterError
  send_failed : Text → Text → RouterError

unfoldable pub error_text_of : RouterError → Text
error_text_of (invalid_request why) = codes "invalid request: " ++ why
error_text_of domain_not_found = codes "domain not configured"
error_text_of no_servers = codes "no healthy servers available for domain"
error_text_of all_servers_failed = codes "all servers failed to send"
error_text_of template_not_found = codes "template not found"
error_text_of (render_failed why) = why
error_text_of (send_failed server err) = codes "send failed on " ++ server ++ codes ": " ++ err

-- The template engine, the tables it reads and the addresses of the assets.
pub record Engine : Type 1 where
  pub Value : Type 0
  pub str : Text → Value
  pub render : Bool → Text → Dict Value → Text ⊎ Text
  pub templates : List MailTemplate
  pub globals : Dict Text
  pub public_url : Text
  pub public_upload_url : Text

-- The part after the one `@`.
unfoldable pub after_one_at : Text → Text
after_one_at email = elim (split_all 64 email) [
  | [] ↦ []
  | user ∷ rest ↦ elim rest [
    | [] ↦ []
    | domain ∷ more ↦ if is_empty more then to_lower domain else []
  ]
]

unfoldable pub has_one_at : Text → Bool
has_one_at email = length (split_all 64 email) == 2

-- What stands between `<` and `>`, for a text with a `<`.
unfoldable pub bracketed : Text → Option Text
bracketed email = elim (split_first 60 email) [
  | none ↦ none
  | some (before, after) ↦ elim (split_first 62 after) [
    | none ↦ some after
    | some (address, end) ↦ some address
  ]
]

unfoldable pub sender_domain_of : Text → Text
sender_domain_of email =
    if has_one_at email
    then after_one_at email
    else elim (bracketed email) [ none ↦ [] | some address ↦ after_one_at address ]

-- strings.ReplaceAll of a part that is not empty; the number is that of the bytes still to skip.
unfoldable pub replace_from : Text → Text → ℕ → Text → Text
replace_from part new skip [] = []
replace_from part new (suc n) (c ∷ s) = replace_from part new n s
replace_from part new zero (c ∷ s) =
    let kept = replace_from part new 0 s in
    let replaced = replace_from part new (length part - 1) s in
    if has_prefix part (c ∷ s) then new ++ replaced else c ∷ kept

-- strings.TrimRight(s, "/")
unfoldable pub trim_slashes : Text → Text
trim_slashes [] = []
trim_slashes (c ∷ s) =
    let rest = trim_slashes s in if is_empty rest && (c == 47) then [] else c ∷ rest

unfoldable pub rewrite_asset_urls : Text → Text → Text → Text
rewrite_asset_urls html public_url public_upload_url =
    let uploads = trim_slashes public_upload_url in
    let static = trim_slashes public_url in
    let uploads_base = if is_empty uploads then static else uploads in
    let html1 =
      if is_empty uploads_base
      then html
      else replace_from (codes "src=\"/uploads/")
          (codes "src=\"" ++ uploads_base ++ codes "/uploads/") 0 html in
    if is_empty static
    then html1
    else replace_from (codes "src=\"/static/") (codes "src=\"" ++ static ++ codes "/static/") 0
        html1

module _ (e : Engine) where
  open e use {Value, str, render, templates, globals, public_url, public_upload_url}

  unfoldable pub copy_globals : Dict Text → Dict Value
  copy_globals [] = []
  copy_globals ((k, v) ∷ m) = insert k (str v) (copy_globals m)

  unfoldable pub copy_data : Dict Value → Dict Value → Dict Value
  copy_data [] result = result
  copy_data ((k, v) ∷ m) result = insert k v (copy_data m result)

  unfoldable pub request_variables : ApiSendRequest Value → Dict Value
  request_variables req =
      let merged = copy_data req.values (copy_globals globals) in
      elim req.to [
        | [] ↦ merged
        | first ∷ rest ↦
            insert (codes "recipient_email") (str first) (insert (codes "email") (str first) merged)
      ]

  unfoldable pub find_template : ApiSendRequest Value → Option MailTemplate
  find_template req =
      if is_empty req.template_id
      then find (λ t. text_eq t.name req.template_name) templates
      else find (λ t. text_eq t.id req.template_id) templates

  unfoldable pub rendered_html : Text → Text
  rendered_html html =
      if is_empty public_url && is_empty public_upload_url
      then html
      else rewrite_asset_urls html public_url public_upload_url

  unfoldable pub resolve_template : ApiSendRequest Value → RouterError ⊎ (MailRequest × Text)
  resolve_template req = elim (find_template req) [
    | none ↦ inl template_not_found
    | some t ↦
        let vars = request_variables req in
        elim (render false t.subject vars) [
          | inl err ↦ inl (render_failed (codes "render subject: " ++ err))
          | inr subject ↦ elim (render true t.html vars) [
            | inl err ↦ inl (render_failed (codes "render html: " ++ err))
            | inr html ↦ elim (render false t.text vars) [
              | inl err ↦ inl (render_failed (codes "render text: " ++ err))
              | inr text ↦ inr (
                record {
                  from = req.from;
                  to = req.to;
                  cc = req.cc;
                  bcc = req.bcc;
                  subject = subject;
                  body = text;
                  html = rendered_html html;
                  headers = req.headers;
                },
                t.id,
              )
            ]
          ]
        ]
  ]

  unfoldable pub build_send_request : ApiSendRequest Value → RouterError ⊎ (MailRequest × Text)
  build_send_request req =
      if not (is_empty req.template_id) || not (is_empty req.template_name)
      then resolve_template req
      else if is_empty req.subject && is_empty req.body && is_empty req.html
      then inl (invalid_request (codes "subject, body or html is required"))
      else inr (
        record {
          from = req.from;
          to = req.to;
          cc = req.cc;
          bcc = req.bcc;
          subject = req.subject;
          body = req.body;
          html = req.html;
          headers = req.headers;
        },
        [],
      )
