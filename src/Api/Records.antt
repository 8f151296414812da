-- ===== src/Api/Records.antt =====
-- The record of a mail: Send of internal/web/router/router.go and the rows of the table `sends`.
use mathlib.Core.Path.{subst}
use sendry.Base.{
  ap, ◌∙◌, Either-cases, ℕ, zero, suc, ◌≡◌, refl, false, not, ◌||◌, Option, none, some, List, [],
  ◌∷◌, ◌++◌, Text, text_eq, text_eq_refl, is_empty, length, leb, find, arith, ◌⊎◌, inl, inr,
  Bool-cases, Option-cases,
}
use sendry.Api.{
  ApiSendRequest, MailRequest, send_sent, send_failed, SendRow, ServerInfo, Call, ApiState,
}
use sendry.Api.Content.{Engine, RouterError, sender_domain_of, build_send_request, error_text_of}
use sendry.Api.Selection.{RouterConfig, get_by_domain, get_deployed_servers, choose_server}
use sendry.Api.Router.{
  get_send, update_send, next_untried, failover_loop, send_with_failover, attempts_for,
  send_recorded, router_send,
}

-- A new row that is updated is found as it is then, and the other rows as they were.
get_send-updated :
    (f : SendRow → SendRow) (row : SendRow) (rs : List SendRow)
    → (f row).id ≡ row.id
    → get_send row.id rs ≡ none
    → get_send row.id (update_send f row.id (rs ++ (row ∷ []))) ≡ some (f row)
unfolding get_send update_send find
get_send-updated f row [] k e = ground (arith, text_eq_refl row.id)
get_send-updated f row (r ∷ rs) k e = ground (arith, get_send-updated f row rs k)

get_send-others :
    (f : SendRow → SendRow) (row : SendRow) (j : Text) (rs : List SendRow)
    → (f row).id ≡ row.id
    → text_eq row.id j ≡ false
    → get_send row.id rs ≡ none
    → get_send j (update_send f row.id (rs ++ (row ∷ []))) ≡ get_send j rs
unfolding get_send update_send find
get_send-others f row j [] k d e = ground (arith, text_eq_refl row.id)
get_send-others f row j (r ∷ rs) k d e = ground (arith, get_send-others f row j rs k d)

-- Where a mail was taken, the latest call is the one that took it.
abbrev Takes : RouterConfig → MailRequest → (RouterError ⊎ (Text × Text)) × List Call → Type 0
Takes cfg mail r =
    (msg server : Text)
    → r.0 ≡ inr (msg, server)
    → (rest : List Call) × (r.1 ≡ (record { called = server; mail = mail } ∷ rest))
      × (cfg.send_mail rest server mail ≡ inr msg)

module _ (cfg : RouterConfig) (mail : MailRequest) (servers : List ServerInfo) where
  Takes-one :
      (s msg : Text) (calls : List Call)
      → cfg.send_mail calls s mail ≡ inr msg
      → Takes cfg mail (inr (msg, s), record { called = s; mail = mail } ∷ calls)
  Takes-one s msg calls q msg' server e =
      let same : s ≡ server = cc e in
      let same' : msg ≡ msg' = cc e in
      subst
        (λ z.
          (rest : List Call) × ((record { called = s; mail = mail } ∷ calls)
            ≡ (record { called = z; mail = mail } ∷ rest))
          × (cfg.send_mail rest z mail ≡ inr msg'))
        same (calls, refl, q ∙ ap inr same')

  failover_loop-Takes :
      (n : ℕ) (tried : List Text) (calls : List Call)
      → Takes cfg mail (failover_loop cfg n servers tried mail calls)
  unfolding failover_loop
  failover_loop-Takes zero tried calls = λ msg server e. absurd cc
  failover_loop-Takes (suc n) tried calls = elim (Option-cases (next_untried tried servers)) [
    | inl z ↦ rw (failover_loop, z) (failover_loop-Takes n tried calls)
    | inr (s, z) ↦
        let calls' : List Call = record { called = s.server; mail = mail } ∷ calls in
        elim (Either-cases (cfg.send_mail calls s.server mail)) [
          | inl (err, q) ↦
              rw (failover_loop, z, q) (failover_loop-Takes n (s.server ∷ tried) calls')
          | inr (msg, q) ↦ rw (failover_loop, z, q) (Takes-one s.server msg calls q)
        ]
  ]

  send_with_failover-Takes :
      (primary : ServerInfo) (calls : List Call)
      → Takes cfg mail (send_with_failover cfg mail servers primary calls)
  unfolding send_with_failover
  send_with_failover-Takes primary calls =
      let calls' : List Call = record { called = primary.server; mail = mail } ∷ calls in
      elim (Either-cases (cfg.send_mail calls primary.server mail)) [
        | inr (msg, q) ↦ rw (send_with_failover, q) (Takes-one primary.server msg calls q)
        | inl (err, q) ↦ elim (Bool-cases (not cfg.failover_enabled || leb (length servers) 1)) [
          | inl z ↦ rw (send_with_failover, q, z) (λ msg server e. absurd cc)
          | inr z ↦
              rw (send_with_failover, q, z)
                (failover_loop-Takes (attempts_for cfg servers) (primary.server ∷ []) calls')
        ]
      ]

-- How a request of the router ends, and what the table of the mails then has under the new id.
pub data Recorded (cfg : RouterConfig) (id : Text) (now : ℕ) (rows : List SendRow)
    (calls : List Call) (r : Option (RouterError ⊎ SendRow) × ApiState) : Type 0 where
  untouched :
      (r.0 ≡ none) ⊎ ((err : RouterError) × (r.0 ≡ some (inl err)))
      → r.1.sends ≡ rows
      → r.1.calls ≡ calls
      → Recorded cfg id now rows calls r
  failed :
      (err : RouterError) (row : SendRow)
      → r.0 ≡ some (inl err)
      → get_send id r.1.sends ≡ some row
      → (row.status ≡ send_failed) × (row.error_message ≡ error_text_of err) × (row.sent_at ≡ none)
      → Recorded cfg id now rows calls r
  sent :
      (answer row : SendRow) (mail : MailRequest) (rest : List Call)
      → r.0 ≡ some (inr answer)
      → get_send id r.1.sends ≡ some row
      → (row.status ≡ send_sent)
        × (row.sent_at ≡ some now)
        × (row.server_msg_id ≡ answer.server_msg_id)
      → r.1.calls ≡ (record { called = answer.server_name; mail = mail } ∷ rest)
      → cfg.send_mail rest answer.server_name mail ≡ inr answer.server_msg_id
      → Recorded cfg id now rows calls r

-- The rows of the other mails.
abbrev pub OthersKept : Text → List SendRow → List SendRow → Type 0
OthersKept id rows rows' = (j : Text) → text_eq id j ≡ false → get_send j rows' ≡ get_send j rows

send_recorded-Recorded :
    (cfg : RouterConfig) (row : SendRow) (mail : MailRequest) (servers : List ServerInfo)
    (primary : ServerInfo) (now : ℕ) (st : ApiState)
    → get_send row.id st.sends ≡ none
    → let (answer, st') = send_recorded cfg row mail servers primary now st in
      Recorded cfg row.id now st.sends st.calls (some answer, st')
      × OthersKept row.id st.sends st'.sends
unfolding send_recorded
send_recorded-Recorded cfg row mail servers primary now st fresh =
    go (send_with_failover cfg mail servers primary st.calls) refl
      (send_with_failover-Takes cfg mail servers primary st.calls)
  where
    go :
        (x : (RouterError ⊎ (Text × Text)) × List Call)
        → send_with_failover cfg mail servers primary st.calls ≡ x
        → Takes cfg mail x
        → let (answer, st') = send_recorded cfg row mail servers primary now st in
          Recorded cfg row.id now st.sends st.calls (some answer, st')
          × OthersKept row.id st.sends st'.sends
    go (inl err, calls) q t =
        let f : SendRow → SendRow = λ r. record r {
          status = send_failed;
          error_message = error_text_of err;
          server_msg_id = [];
          sent_at = none;
        } in
        rw (send_recorded, q)
          (
            failed err (f row) refl (get_send-updated f row st.sends refl fresh) (refl, refl, refl),
            λ j d. get_send-others f row j st.sends refl d fresh,
          )
    go (inr (msg, server), calls) q t =
        let f : SendRow → SendRow = λ r. record r {
          status = send_sent;
          error_message = [];
          server_msg_id = msg;
          sent_at = some now;
        } in
        let (rest, c, took) = t msg server refl in
        rw (send_recorded, q)
          (
            sent (record row { status = send_sent; server_name = server; server_msg_id = msg })
                (f row) mail rest refl (get_send-updated f row st.sends refl fresh)
                (refl, refl, refl) (ap (λ x. x.1) q ∙ c) took,
            λ j d. get_send-others f row j st.sends refl d fresh,
          )

-- If no record has the new id, a request of the router ends in one of three ways: in an error or a
-- panic, with no record and no call; in an error, with a record under the id that says so; or with an
-- answer, whose server was the last to be called and took the mail, and whose id of that server the
-- record has, marked as sent now. The record never stays pending, and the other ones are as before.
pub router_send-Recorded :
    (cfg : RouterConfig) (e : Engine) (req : ApiSendRequest e.Value) (key id : Text) (now : ℕ)
    (st : ApiState)
    → get_send id st.sends ≡ none
    → let r = router_send cfg e req key id now st in
      Recorded cfg id now st.sends st.calls r × OthersKept id st.sends r.1.sends
unfolding router_send
router_send-Recorded cfg e req key id now st fresh = elim (Bool-cases (is_empty req.from)) [
  | inl a ↦ rw (router_send, a) (untouched (inr (_, refl)) refl refl, λ j d. refl)
  | inr a ↦ elim (Bool-cases (is_empty req.to)) [
    | inl b ↦ rw (router_send, a, b) (untouched (inr (_, refl)) refl refl, λ j d. refl)
    | inr b ↦ elim (Bool-cases (is_empty (sender_domain_of req.from))) [
      | inl c ↦ rw (router_send, a, b, c) (untouched (inr (_, refl)) refl refl, λ j d. refl)
      | inr c ↦ elim (Option-cases (get_by_domain cfg (sender_domain_of req.from))) [
        | inl d ↦ rw (router_send, a, b, c, d) (untouched (inr (_, refl)) refl refl, λ j d. refl)
        | inr (dom, d) ↦ elim (Bool-cases (is_empty (get_deployed_servers cfg dom.deployments))) [
          | inl f ↦
              rw (router_send, a, b, c, d, f) (untouched (inr (_, refl)) refl refl, λ j d. refl)
          | inr f ↦ elim (Either-cases (build_send_request e req)) [
            | inl (err, g) ↦
                rw (router_send, a, b, c, d, f, g)
                  (untouched (inr (_, refl)) refl refl, λ j d. refl)
            | inr ((mail, template), g) ↦
                let servers = get_deployed_servers cfg dom.deployments in
                let chosen =
                  choose_server cfg req.prefer_server (sender_domain_of req.from) servers
                    st.rr_counters in
                elim (Option-cases chosen.0) [
                  | inl h ↦
                      rw (router_send, a, b, c, d, f, g, h)
                        (untouched (inl refl) refl refl, λ j d. refl)
                  | inr (primary, h) ↦
                      rw (router_send, a, b, c, d, f, g, h)
                        (send_recorded-Recorded cfg _ mail servers primary now
                          (record st { rr_counters = chosen.1 }) fresh)
                ]
          ]
        ]
      ]
    ]
  ]
]
