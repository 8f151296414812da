-- ===== src/Api/Serving.antt =====
-- Who may send: APIAuth of internal/web/middleware/middleware.go before APISend of
-- internal/web/handlers/api.go.
use mathlib.Core.Path.{subst}
use sendry.Base.{
  ℕ, ◌≡◌, refl, ◌∙◌, Bool, true, false, not, ◌&&◌, Option, none, some, List, [], ◌∷◌, Text, text_eq,
  is_empty, find, any, arith, ◌⊎◌, inl, inr, Bool-cases, Option-cases, Dict, All, codes,
}
use sendry.Api.{ApiKey, ApiSendRequest, SendRow, ApiState}
use sendry.Api.Keys.{get_by_hash, update_last_used}
use sendry.Api.Limits.{KeyCounter}
use sendry.Api.Auth.{ApiError, refusal_of, api_auth, token_of, is_expired, within_limits}
use sendry.Api.Content.{Engine, RouterError, sender_domain_of, after_one_at}
use sendry.Api.Selection.{RouterConfig}
use sendry.Api.Router.{router_send}
use sendry.Api.Handlers.{ApiRequest, api_send, serve_send, can_send_from_domain}
use sendry.Api.Senders.{Configured, router_send-Configured, after_one_at-agrees}

-- The key is there by its hash, active and not expired.
abbrev pub IsGood : (Text → Text) → Text → ℕ → List ApiKey → ApiKey → Type 0
IsGood hash_key token now ks k =
    (get_by_hash (hash_key token) ks ≡ some k) × (k.active ≡ true) × (is_expired now k ≡ false)

api_auth-IsGood :
    (hash_key : Text → Text) (authorization x_api_key : Text) (now : ℕ) (ks : List ApiKey)
    (m : Dict KeyCounter)
    → ((err : ApiError) × ((api_auth hash_key authorization x_api_key now ks m).0 ≡ inl err))
      ⊎ ((k : ApiKey) × ((api_auth hash_key authorization x_api_key now ks m).0 ≡ inr k)
          × IsGood hash_key (token_of authorization x_api_key) now ks k)
unfolding api_auth is_expired within_limits
api_auth-IsGood hash_key authorization x_api_key now ks m =
    let token = token_of authorization x_api_key in
    elim (Bool-cases (is_empty token)) [
      | inl a ↦ inl (refusal_of 401 (codes "API key required"), rw (api_auth, a) refl)
      | inr a ↦ elim (Option-cases (get_by_hash (hash_key token) ks)) [
        | inl b ↦ inl (refusal_of 401 (codes "Invalid API key"), rw (api_auth, a, b) refl)
        | inr (k, b) ↦ elim (Bool-cases k.active) [
          | inr c ↦ inl (refusal_of 401 (codes "API key is inactive"), rw (api_auth, a, b, c) refl)
          | inl c ↦ elim (Bool-cases (is_expired now k)) [
            | inl d ↦ inl (refusal_of 401 (codes "API key expired"), rw (api_auth, a, b, d, c) refl)
            | inr d ↦ elim (Bool-cases (within_limits k now m).0) [
              | inr f ↦
                  inl (
                    refusal_of 429 (codes "Rate limit exceeded"),
                    rw (api_auth, a, b, d, f, c) refl,
                  )
              | inl f ↦ inr (k, rw (api_auth, a, b, d, f, c) refl, (b, c, d))
            ]
          ]
        ]
      ]
    ]

-- The domain is among those of the key, or the key has none.
abbrev pub MaySend : ApiKey → Text → Type 0
MaySend k domain =
    (is_empty k.allowed_domains ≡ true) ⊎ (any (λ d. text_eq d domain) k.allowed_domains ≡ true)

-- No domain of a key is the empty text.
abbrev pub NamesDomains : ApiKey → Type 0
NamesDomains k = any (λ d. text_eq d []) k.allowed_domains ≡ false

find-All :
    (P : ApiKey → Type 0) (p : ApiKey → Bool) (ks : List ApiKey) {k : ApiKey}
    → All P ks
    → find p ks ≡ some k
    → P k
unfolding find
find-All P p [] a e = absurd cc
find-All P p (x ∷ xs) {k} a e = elim (Bool-cases (p x)) [
  | inl y ↦ let same : x ≡ k = cc (y, e) in subst P same a.0
  | inr n ↦ find-All P p xs a.1 (cc (n, e))
]

empty_text : (s : Text) → is_empty s ≡ true → s ≡ []
empty_text [] h = refl
empty_text (c ∷ s) h = absurd cc

-- What the handler lets through, the key may send.
may_send :
    (k : ApiKey) (from : Text)
    → NamesDomains k
    → is_empty from ≡ false
    → (not (is_empty k.allowed_domains)
        && not (is_empty from)
        && not (can_send_from_domain k (after_one_at from)))
      ≡ false
    → MaySend k (sender_domain_of from)
unfolding can_send_from_domain
may_send k from named f b = elim (Bool-cases (is_empty k.allowed_domains)) [
  | inl none_named ↦ inl none_named
  | inr some_named ↦
      let allowed : any (λ d. text_eq d (after_one_at from)) k.allowed_domains ≡ true =
        ground arith in
      elim (Bool-cases (is_empty (after_one_at from))) [
        | inl z ↦
            let no_domain : after_one_at from ≡ [] = empty_text (after_one_at from) z in
            absurd (cc (named, allowed, no_domain))
        | inr z ↦ inr (rw (after_one_at-agrees from z) allowed)
      ]
]

module _ (cfg : RouterConfig) (e : Engine) where
  router_send-nobody :
      (req : ApiSendRequest e.Value) (key id : Text) (now : ℕ) (st : ApiState)
      → is_empty req.from ≡ true
      → (router_send cfg e req key id now st).1.calls ≡ st.calls
  unfolding router_send
  router_send-nobody req key id now st a = rw (router_send, a) refl

  api_send-calls :
      (k : ApiKey) (req : ApiSendRequest e.Value) (id : Text) (now : ℕ) (st : ApiState)
      → (not (is_empty k.allowed_domains)
          && not (is_empty req.from)
          && not (can_send_from_domain k (after_one_at req.from)))
        ≡ false
      → (api_send cfg e k (some req) id now st).1.calls
        ≡ (router_send cfg e req k.id id now st).1.calls
  unfolding api_send
  api_send-calls k req id now st b = go (router_send cfg e req k.id id now st).0 refl
    where
      go :
          (o : Option (RouterError ⊎ SendRow))
          → (router_send cfg e req k.id id now st).0 ≡ o
          → (api_send cfg e k (some req) id now st).1.calls
            ≡ (router_send cfg e req k.id id now st).1.calls
      go none q = rw (api_send, b, q) refl
      go (some (inl err)) q = rw (api_send, b, q) refl
      go (some (inr row)) q = rw (api_send, b, q) refl

  api_send-MaySend :
      (k : ApiKey) (req : ApiSendRequest e.Value) (id : Text) (now : ℕ) (st : ApiState)
      → NamesDomains k
      → ((api_send cfg e k (some req) id now st).1.calls ≡ st.calls)
        ⊎ (MaySend k (sender_domain_of req.from) × Configured cfg (sender_domain_of req.from))
  unfolding api_send
  api_send-MaySend k req id now st named =
      let refusal : Bool =
        not (is_empty k.allowed_domains)
        && not (is_empty req.from)
        && not (can_send_from_domain k (after_one_at req.from)) in
      elim (Bool-cases refusal) [
        | inl b ↦ inl (rw (api_send, b) refl)
        | inr b ↦ elim (Bool-cases (is_empty req.from)) [
          | inl f ↦ inl (api_send-calls k req id now st b ∙ router_send-nobody req k.id id now st f)
          | inr f ↦ elim (router_send-Configured cfg e req k.id id now st) [
            | inl same ↦ inl (api_send-calls k req id now st b ∙ same)
            | inr there ↦ inr (may_send k req.from named f b, there)
          ]
        ]
      ]

  -- If no domain of a key is the empty text, a request to the sending API makes calls of the mail
  -- servers only if its token is that of an active key that has not expired, the body can be read, the
  -- domain of the sender is among those of the key or the key has none, and that domain is configured
  -- and deployed on a server.
  pub serve_send-MaySend :
      (hash_key : Text → Text) (r : ApiRequest e.Value) (id : Text) (now : ℕ) (st : ApiState)
      (m : Dict KeyCounter)
      → All NamesDomains st.keys
      → ((serve_send cfg e hash_key r id now st m).1.calls ≡ st.calls)
        ⊎ ((k : ApiKey) × (req : ApiSendRequest e.Value) × IsGood hash_key
              (token_of r.authorization r.x_api_key)
              now
              st.keys
              k
            × (r.request ≡ some req)
            × MaySend k (sender_domain_of req.from)
            × Configured cfg (sender_domain_of req.from))
  unfolding serve_send api_send get_by_hash
  serve_send-MaySend hash_key r id now st m named =
      elim (api_auth-IsGood hash_key r.authorization r.x_api_key now st.keys m) [
        | inl (err, a) ↦ inl (rw (serve_send, a) refl)
        | inr (k, a, good) ↦ elim (Option-cases r.request) [
          | inl n ↦ inl (rw (serve_send, a, n) refl)
          | inr (req, q) ↦
              let st' : ApiState = record st { keys = update_last_used k.id now st.keys } in
              let k_named = find-All NamesDomains _ st.keys named good.0 in
              elim (api_send-MaySend k req id now st' k_named) [
                | inl same ↦ inl (rw (serve_send, a, q) same)
                | inr (may, there) ↦ inr (k, req, good, q, may, there)
              ]
        ]
      ]
