-- ===== src/Jobs/Mails.antt =====
-- internal/web/worker/worker.go: the request that is sent for an item of a job.
use sendry.Base.{
  Bool, Option, none, some, List, [], ◌∷◌, ◌++◌, ◌⊎◌, inl, inr, Text, codes, is_empty,
  if◌then◌else◌, Dict, lookup, insert,
}
use sendry.Jobs.{
  SendJobItem, Recipient, Campaign, CampaignVariant, Template, SendRequest, Handed, Store,
}
use sendry.Jobs.Reading.{recipient_of, get_template}

pub record StatusResponse : Type 0 where
  pub status : Text
  pub last_error : Text

-- What is outside: the configured mail servers, whose answers may depend on all calls so far, the
-- template engine and the JSON decoder. `decode_flat` says whether it succeeded, and what the map
-- holds in either case; an error is its text.
pub record Outside : Type 1 where
  pub Value : Type 0
  pub str : Text → Value
  pub decode_any : Text → Option (Dict Value)
  pub decode_flat : Text → Bool × Dict Text
  pub render_html : Text → Text → Dict Value → Text ⊎ Text
  pub render_text : Text → Text → Dict Value → Text ⊎ Text
  pub has_client : Text → Bool
  pub send : List Handed → Text → SendRequest → Text ⊎ Text
  pub get_status : List Handed → Text → Text → Option StatusResponse

unfoldable pub format_from : Text → Text → Text
format_from email name = if is_empty name then email else name ++ codes " <" ++ email ++ codes ">"

-- The columns of the LEFT JOIN on the recipients: empty for a recipient that is not there.
unfoldable pub email_of : Option Recipient → Text
email_of none = []
email_of (some r) = r.email

unfoldable pub name_of : Option Recipient → Text
name_of none = []
name_of (some r) = r.name

unfoldable pub variables_of : Option Recipient → Text
variables_of none = []
variables_of (some r) = r.variables

-- result[k] = v for all entries; the order in which Go ranges over a map is not specified.
unfoldable pub copy_into {ℓ} : {V : Type ℓ} → Dict V → Dict V → Dict V
copy_into [] result = result
copy_into ((k, v) ∷ m) result = insert k v (copy_into m result)

unfoldable pub as_values {ℓ} : {V : Type ℓ} → (Text → V) → Dict Text → Dict V
as_values str [] = []
as_values str ((k, v) ∷ m) = (k, str v) ∷ as_values str m

unfoldable pub variant_map : List CampaignVariant → Dict CampaignVariant → Dict CampaignVariant
variant_map [] m = m
variant_map (v ∷ vs) m = variant_map vs (insert v.id v m)

-- A template that is not there is kept as a nil.
unfoldable pub template_map :
    Store → List CampaignVariant → Dict (Option Template) → Dict (Option Template)
template_map st [] m = m
template_map st (v ∷ vs) m = elim (lookup v.template_id m) [
  | some t ↦ template_map st vs m
  | none ↦ template_map st vs (insert v.template_id (get_template v.template_id st) m)
]

module _ (sv : Outside) where
  open sv use {
    Value, str, decode_any, decode_flat, render_html, render_text, has_client, send, get_status,
  }

  -- The recipient's own variables, of both forms that are tried.
  unfoldable pub recipient_values : Text → Dict Value
  recipient_values json = if is_empty json then [] else elim (decode_any json) [
    | some vars ↦ vars
    | none ↦ let (ok, flat) = decode_flat json in if ok then as_values str flat else []
  ]

  unfoldable pub merge_variables : Dict Text → Dict Text → Text → Dict Value
  merge_variables global campaign json =
      copy_into (recipient_values json)
        (copy_into (as_values str campaign) (copy_into (as_values str global) []))

  unfoldable pub item_variables : Dict Text → Dict Text → Option Recipient → Dict Value
  item_variables global campaign r =
      let email = email_of r in
      let name = name_of r in
      let vars =
        insert (codes "recipient_email") (str email)
          (insert (codes "email") (str email) (merge_variables global campaign (variables_of r))) in
      if is_empty name
      then vars
      else insert (codes "recipient_name") (str name) (insert (codes "name") (str name) vars)

  -- The three texts are rendered in this order, and the first error is reported.
  unfoldable pub build_request :
      Campaign → CampaignVariant → Template → Text → Dict Value → Text ⊎ SendRequest
  build_request c v t email vars =
      let source = if is_empty v.subject_override then t.subject else v.subject_override in
      elim (render_text (codes "subject") source vars) [
        | inl err ↦ inl (codes "render subject: " ++ err)
        | inr subject ↦ elim (render_html (codes "html") t.html vars) [
          | inl err ↦ inl (codes "render html: " ++ err)
          | inr html ↦ elim (render_text (codes "text") t.text vars) [
            | inl err ↦ inl (codes "render text: " ++ err)
            | inr text ↦ inr (record {
              from = format_from c.from_email c.from_name;
              to = email ∷ [];
              subject = subject;
              body = text;
              html = html;
              headers = if is_empty c.reply_to then [] else (codes "Reply-To", c.reply_to) ∷ [];
            })
          ]
        ]
      ]

  -- What there is to send for an item, or why there is nothing.
  unfoldable pub prepare_item :
      SendJobItem
      → Campaign
      → Dict CampaignVariant
      → Dict (Option Template)
      → Dict Text
      → Store
      → Text ⊎ SendRequest
  prepare_item i c vs ts campaign_vars st = elim (lookup i.variant_id vs) [
    | none ↦ inl (codes "variant not found")
    | some v ↦ elim (lookup v.template_id ts) [
      | none ↦ inl (codes "template not found")
      | some none ↦ inl (codes "template not found")
      | some (some t) ↦
          if has_client i.server_name
          then build_request c v t (email_of (recipient_of i st))
              (item_variables st.globals campaign_vars (recipient_of i st))
          else inl (codes "server not found: " ++ i.server_name)
    ]
  ]
