-- ===== src/Api/Senders.antt =====
-- From which domains and through which servers a request sends: internal/web/router/router.go.
use sendry.Base.{
  ℕ, ◌≡◌, refl, true, false, some, List, [], ◌∷◌, Text, is_empty, length, ◌==◌, if◌then◌else◌, ◌⊎◌,
  inl, inr, Bool-cases, Option-cases, split_all, to_lower,
}
use sendry.Api.{ApiSendRequest, SenderDomain, ApiState}
use sendry.Api.Content.{Engine, sender_domain_of, after_one_at, has_one_at}
use sendry.Api.Selection.{RouterConfig, get_by_domain, get_deployed_servers}
use sendry.Api.Router.{router_send}

-- A request that has calls made has a domain that is configured.
abbrev pub Configured : RouterConfig → Text → Type 0
Configured cfg domain =
    (d : SenderDomain) × (get_by_domain cfg domain ≡ some d)
    × (is_empty (get_deployed_servers cfg d.deployments) ≡ false)

-- Nothing is sent, or the domain of the sender is configured and deployed somewhere.
pub router_send-Configured :
    (cfg : RouterConfig) (e : Engine) (req : ApiSendRequest e.Value) (key id : Text) (now : ℕ)
    (st : ApiState)
    → ((router_send cfg e req key id now st).1.calls ≡ st.calls)
      ⊎ Configured cfg (sender_domain_of req.from)
unfolding router_send
router_send-Configured cfg e req key id now st = elim (Bool-cases (is_empty req.from)) [
  | inl a ↦ inl (rw (router_send, a) refl)
  | inr a ↦ elim (Bool-cases (is_empty req.to)) [
    | inl b ↦ inl (rw (router_send, a, b) refl)
    | inr b ↦ elim (Bool-cases (is_empty (sender_domain_of req.from))) [
      | inl c ↦ inl (rw (router_send, a, b, c) refl)
      | inr c ↦ elim (Option-cases (get_by_domain cfg (sender_domain_of req.from))) [
        | inl d ↦ inl (rw (router_send, a, b, c, d) refl)
        | inr (dom, d) ↦ elim (Bool-cases (is_empty (get_deployed_servers cfg dom.deployments))) [
          | inl f ↦ inl (rw (router_send, a, b, c, d, f) refl)
          | inr f ↦ inr (dom, d, f)
        ]
      ]
    ]
  ]
]

two_parts :
    (l : List Text)
    → is_empty (elim l as (λ _. Text) [
      | [] ↦ []
      | user ∷ rest ↦ elim rest as (λ _. Text) [
        | [] ↦ []
        | domain ∷ more ↦ if is_empty more then to_lower domain else []
      ]
    ])
      ≡ false
    → (length l == 2) ≡ true
two_parts [] h = absurd cc
two_parts (x ∷ []) h = absurd cc
two_parts (x ∷ y ∷ []) h = refl
two_parts (x ∷ y ∷ z ∷ l) h = absurd cc

one_at : (email : Text) → is_empty (after_one_at email) ≡ false → has_one_at email ≡ true
unfolding has_one_at after_one_at
one_at email h = two_parts (split_all 64 email) h

-- The domain that the handler checks is the one that the router takes, unless it is empty.
pub after_one_at-agrees :
    (email : Text)
    → is_empty (after_one_at email) ≡ false
    → sender_domain_of email ≡ after_one_at email
unfolding sender_domain_of
after_one_at-agrees email h = rw (sender_domain_of, one_at email h) refl
