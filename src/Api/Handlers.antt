-- ===== src/Api/Handlers.antt =====
-- APISend and APIGetStatus of internal/web/handlers/api.go, behind APIAuth.
use sendry.Base.{
  ℕ, Bool, true, ◌&&◌, not, Option, none, some, Text, codes, text_eq, is_empty, if◌then◌else◌, any,
  contains, ◌⊎◌, inl, inr, Dict,
}
use sendry.Api.{ApiKey, ApiSendRequest, SendRow, ApiState}
use sendry.Api.Keys.{update_last_used}
use sendry.Api.Limits.{KeyCounter}
use sendry.Api.Auth.{ApiError, api_auth}
use sendry.Api.Content.{
  RouterError, invalid_request, domain_not_found, no_servers, all_servers_failed,
  template_not_found, render_failed, send_failed, Engine, after_one_at, error_text_of,
}
use sendry.Api.Selection.{RouterConfig}
use sendry.Api.Router.{get_send, router_send}

unfoldable pub can_send_from_domain : ApiKey → Text → Bool
can_send_from_domain k domain =
    if is_empty k.allowed_domains then true else any (λ d. text_eq d domain) k.allowed_domains

abbrev pub api_error : ℕ → Text → Text → ApiError
api_error code message error_code = record {
  code = code;
  message = message;
  error_code = error_code;
}

-- An error that is none of the others is told by its text.
unfoldable pub unexpected : Text → ApiError
unexpected text =
    if contains (codes "invalid request") text
    then api_error 400 text (codes "INVALID_REQUEST")
    else api_error 500 (codes "Internal server error") (codes "INTERNAL_ERROR")

unfoldable pub api_error_of : RouterError → ApiError
api_error_of domain_not_found =
    api_error 400 (codes "Domain not configured") (codes "DOMAIN_NOT_FOUND")
api_error_of no_servers = api_error 503 (codes "No healthy servers available") (codes "NO_SERVERS")
api_error_of all_servers_failed =
    api_error 502 (codes "All servers failed to send") (codes "SEND_FAILED")
api_error_of template_not_found =
    api_error 404 (codes "Template not found") (codes "TEMPLATE_NOT_FOUND")
api_error_of (invalid_request why) = unexpected (error_text_of (invalid_request why))
api_error_of (render_failed why) = unexpected (error_text_of (render_failed why))
api_error_of (send_failed server why) = unexpected (error_text_of (send_failed server why))

-- A request: its headers, and its body if that decodes.
pub record ApiRequest {ℓ} (Value : Type ℓ) : Type ℓ where
  pub authorization : Text
  pub x_api_key : Text
  pub request : Option (ApiSendRequest Value)

module _ (cfg : RouterConfig) (e : Engine) where
  unfoldable pub api_send :
      ApiKey
      → Option (ApiSendRequest e.Value)
      → Text
      → ℕ
      → ApiState
      → Option (ApiError ⊎ SendRow) × ApiState
  api_send k none id now st =
      (some (inl (api_error 400 (codes "Invalid request body") (codes "INVALID_JSON"))), st)
  api_send k (some req) id now st =
      if not (is_empty k.allowed_domains)
        && not (is_empty req.from)
        && not (can_send_from_domain k (after_one_at req.from))
      then (
        some (
            inl (
              api_error 403 (codes "Domain not allowed for this API key")
                (codes "DOMAIN_NOT_ALLOWED"))),
        st,
      )
      else let (answer, st') = router_send cfg e req k.id id now st in
        elim answer [
          | none ↦ (none, st')
          | some (inl err) ↦ (some (inl (api_error_of err)), st')
          | some (inr row) ↦ (some (inr row), st')
        ]

  -- The request with the authentication before it; the counters of the limits are a state of their own.
  unfoldable pub serve_send :
      (Text → Text)
      → ApiRequest e.Value
      → Text
      → ℕ
      → ApiState
      → Dict KeyCounter
      → Option (ApiError ⊎ SendRow) × ApiState × Dict KeyCounter
  serve_send hash_key r id now st m =
      let (auth, m') = api_auth hash_key r.authorization r.x_api_key now st.keys m in
      elim auth [
        | inl err ↦ (some (inl err), st, m')
        | inr k ↦
            let (answer, st') =
              api_send k r.request id now
                (record st { keys = update_last_used k.id now st.keys }) in
            (answer, st', m')
      ]

unfoldable pub api_get_status : Text → ApiState → ApiError ⊎ SendRow
api_get_status id st =
    if is_empty id
    then inl (api_error 400 (codes "Send ID is required") (codes "MISSING_ID"))
    else elim (get_send id st.sends) [
      | none ↦ inl (api_error 404 (codes "Send not found") (codes "NOT_FOUND"))
      | some r ↦ inr r
    ]
