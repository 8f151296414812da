-- ===== src/Api/Auth.antt =====
-- APIAuth of internal/web/middleware/middleware.go. The time of the last use, which a goroutine
-- writes, is written at once.
use sendry.Base.{
  ℕ, Bool, true, false, ◌||◌, not, none, some, List, [], Text, codes, is_empty, ltb, has_prefix,
  drop, if◌then◌else◌, Dict, ◌⊎◌, inl, inr,
}
use sendry.Api.{ApiKey}
use sendry.Api.Keys.{get_by_hash}
use sendry.Api.Limits.{KeyCounter, allow_key}

-- An answer with an error: the status, the message and the code, which is empty here.
pub record ApiError : Type 0 where
  pub code : ℕ
  pub message : Text
  pub error_code : Text

abbrev pub refusal_of : ℕ → Text → ApiError
refusal_of code message = record { code = code; message = message; error_code = [] }

-- The header Authorization, or else X-API-Key, without the prefix.
unfoldable pub token_of : Text → Text → Text
token_of authorization x_api_key =
    let auth = if is_empty authorization then x_api_key else authorization in
    if has_prefix (codes "Bearer ") auth then drop 7 auth else auth

unfoldable pub is_expired : ℕ → ApiKey → Bool
is_expired now k = elim k.expires_at [ none ↦ false | some t ↦ ltb t now ]

-- Keys without limits have no counter.
unfoldable pub within_limits : ApiKey → ℕ → Dict KeyCounter → Bool × Dict KeyCounter
within_limits k now m =
    if ltb 0 k.rate_limit_minute || ltb 0 k.rate_limit_hour
    then allow_key k.id k.rate_limit_minute k.rate_limit_hour now m
    else (true, m)

-- The error, or the key with which the request is passed on, and the counters.
unfoldable pub api_auth :
    (Text → Text)
    → Text
    → Text
    → ℕ
    → List ApiKey
    → Dict KeyCounter
    → (ApiError ⊎ ApiKey) × Dict KeyCounter
api_auth hash_key authorization x_api_key now ks m =
    let token = token_of authorization x_api_key in
    if is_empty token
    then (inl (refusal_of 401 (codes "API key required")), m)
    else elim (get_by_hash (hash_key token) ks) [
      | none ↦ (inl (refusal_of 401 (codes "Invalid API key")), m)
      | some k ↦
          if not k.active
          then (inl (refusal_of 401 (codes "API key is inactive")), m)
          else if is_expired now k
          then (inl (refusal_of 401 (codes "API key expired")), m)
          else let (allowed, m') = within_limits k now m in
            if allowed
            then (inr k, m')
            else (inl (refusal_of 429 (codes "Rate limit exceeded")), m')
    ]
